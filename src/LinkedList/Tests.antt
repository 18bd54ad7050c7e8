-- ===== src/LinkedList/Tests.antt =====
-- A run of 3-asm/main.c on a small array, with a bump allocator.
use otus_c.Common.{◌⊎◌, ℕ, suc, ◌+◌, ◌≤◌, ◌≡◌, ◌≢◌, refl, arith, Bool-cases}
use otus_c.Common.{none, some, inl, inr, List, [], ◌∷◌, ◌==◌, ==→≡}
use otus_c.LinkedList.{Heap, load, p, f, main, ended}
use otus_c.LinkedList.Chains.{Blocks, first, values, Chain}
use otus_c.LinkedList.Filter.{kept_onto, Moves, f-Moves}
use otus_c.LinkedList.Program.{main-frees}

-- An address above all that are allocated.
abbrev stack : Heap → ℕ
stack [] = 1
stack ((a, c) ∷ h) = suc (a + stack h)

above : (a : ℕ) (h : Heap) → stack h ≤ a → load a h ≡ none
above a [] l = refl
above a ((b, c) ∷ h) l = elim (Bool-cases (a == b)) [
  | inl e ↦ absurd (omega (arith, ==→≡ a b e))
  | inr e ↦ rw (e) (above a h (omega arith))
]

stack-fresh : (h : Heap) → load (stack h) h ≡ none
stack-fresh h = above (stack h) h (omega arith)

stack-memory : (h : Heap) → stack h ≢ 0
stack-memory [] = λ z. omega arith
stack-memory ((a, c) ∷ h) = λ z. omega arith

abbrev odd_data : List ℕ
odd_data = 4 ∷ 15 ∷ 23 ∷ []

main-frees_example :
    ((kept_onto p odd_data [] ≢ [])
      × ((h : Heap) × (main stack odd_data 0 ≡ some (ended odd_data (kept_onto p odd_data []) h))
          × ((b : ℕ) → load b h ≡ none)))
    ⊎ ((kept_onto p odd_data [] ≡ []) × (main stack odd_data 0 ≡ none))
main-frees_example = main-frees stack stack-fresh stack-memory odd_data

prints : kept_onto p odd_data [] ≡ 23 ∷ 15 ∷ []
unfolding p
prints = refl

abbrev two_blocks : Blocks
two_blocks = (1, 15) ∷ (2, 4) ∷ []

abbrev two_heap : Heap
two_heap = (1, record { value = 15; next = 2 }) ∷ (2, record { value = 4; next = 0 }) ∷ []

two_linked : Chain two_heap two_blocks
two_linked = (λ z. omega arith, refl, refl, (λ z. omega arith, refl, refl, tt))

f-Moves_example :
    (h : Heap) × (es : Blocks) × (f stack 3 1 0 p two_heap ≡ some (first es, h))
    × (values es ≡ kept_onto p (15 ∷ 4 ∷ []) [])
    × Moves two_blocks two_heap [] h es
f-Moves_example =
    f-Moves stack stack-fresh stack-memory p two_blocks [] two_heap 3 two_linked tt (λ b t. refl)
      (omega arith)

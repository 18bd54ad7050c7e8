-- ===== src/LinkedList/Program.antt =====
-- `main` of 3-asm/main.c from its first to its last block.
use otus_c.Common.{ℕ, suc, ◌+◌, ◌<◌, ◌≤◌, ◌≡◌, ◌≢◌, refl, sym, ap, ◌∙◌, arith, false}
use otus_c.Common.{none, some, inl, inr, List, [], ◌∷◌, ◌==◌, length, Bool-cases, List-cases, ◌⊎◌}
use otus_c.LinkedList.{Heap, load, add_data, p, m, f, free_all, main, ended}
use otus_c.LinkedList.Chains.{Blocks, first, values, has, Chain, m-values, free_all-Chain}
use otus_c.LinkedList.Filter.{kept_onto, add_element-Adds, f-Moves}

length-values : (cs : Blocks) → length (values cs) ≡ length cs
length-values [] = refl
length-values ((a, x) ∷ cs) = ap suc (length-values cs)

length-kept_onto :
    (func : ℕ → ℕ) (xs ys : List ℕ) → length (kept_onto func xs ys) ≤ length xs + length ys
length-kept_onto func [] ys = omega arith
length-kept_onto func (x ∷ xs) ys = elim (Bool-cases (func x == 0)) [
  | inl e ↦ rw (e) (omega (arith, length-kept_onto func xs ys))
  | inr e ↦ rw (e) (omega (arith, length-kept_onto func xs (x ∷ ys)))
]

has_0 : (h : Heap) (cs : Blocks) → Chain h cs → has 0 cs ≡ false
has_0 h [] c = refl
has_0 h ((a, x) ∷ cs) c = ground (arith, c.0, has_0 h cs c.3)

-- The heap has the list and nothing else.
abbrev Only : Heap → Blocks → Type 0
Only h cs = (b : ℕ) → has b cs ≡ false → load b h ≡ none

all_freed :
    (h : Heap) (es : Blocks) (n : ℕ)
    → values es ≢ []
    → Chain h es
    → Only h es
    → length es < n
    → (h' : Heap) × (free_all n (first es) h ≡ some h') × ((b : ℕ) → load b h' ≡ none)
all_freed h [] n ne c only l = absurd (ne refl)
all_freed h ((a, x) ∷ es) n ne c only l =
    let (h', e, gone, same) = free_all-Chain h a x es n c (omega arith) in
    (
      h',
      e,
      λ b. elim (Bool-cases (has b ((a, x) ∷ es))) [
        | inl z ↦ gone b z
        | inr z ↦ same b z ∙ only b z
      ],
    )

not_freed :
    (h : Heap) (es : Blocks) (n : ℕ)
    → values es ≡ []
    → load 0 h ≡ none
    → free_all (suc n) (first es) h ≡ none
unfolding free_all
not_freed h [] n e z = rw (free_all, z) refl
not_freed h ((a, x) ∷ es) n e z = absurd (ground (arith, e))

module _ (malloc : Heap → ℕ) (fresh : (h : Heap) → load (malloc h) h ≡ none)
    (memory : (h : Heap) → malloc h ≢ 0) where
  add_data-Chain :
      (data_ : List ℕ)
      → (h : Heap) × (cs : Blocks) × (add_data malloc data_ 0 [] ≡ some (first cs, h))
        × (values cs ≡ data_)
        × Chain h cs
        × Only h cs
  unfolding add_data
  add_data-Chain [] = ([], [], refl, refl, tt, λ b t. refl)
  add_data-Chain (x ∷ data_) =
      let (h, cs, e, q, c, only) = add_data-Chain data_ in
      let (h', a, e', n, k) = add_element-Adds malloc fresh memory x cs h c in
      let z : (a == 0) ≡ false = ground (arith, n) in
      (
        h',
        (a, x) ∷ cs,
        rw (e, e', z) refl,
        ap (λ l. x ∷ l) q,
        k.linked,
        λ b t. k.same b t ∙ only b (ground (arith, t)),
      )

  -- `main` up to its second call of `f`, which leaves the new list alone on the heap.
  filtered :
      (data_ : List ℕ)
      → (h h' : Heap) × (cs es : Blocks) × (add_data malloc data_ 0 [] ≡ some (first cs, h))
        × (m (suc (length data_)) (first cs) h ≡ some data_)
        × (f malloc (suc (length data_)) (first cs) 0 p h ≡ some (first es, h'))
        × (m (suc (length data_)) (first es) h' ≡ some (kept_onto p data_ []))
        × (values es ≡ kept_onto p data_ [])
        × (length es < suc (length data_))
        × Chain h' es
        × Only h' es
        × (load 0 h' ≡ none)
  filtered data_ =
      let (h, cs, e, q, c, only) = add_data-Chain data_ in
      let n = suc (length data_) in
      let l : length cs < n = omega (arith, length-values cs, ap length q) in
      let (h', es, e', q', k) = f-Moves malloc fresh memory p cs [] h n c tt (λ b t. refl) l in
      let kept : values es ≡ kept_onto p data_ [] = q' ∙ ap (λ l. kept_onto p l []) q in
      let l' : length es < n =
        omega (arith, length-values es, ap length kept, length-kept_onto p data_ []) in
      let only' : Only h' es = λ b t. elim (Bool-cases (has b cs)) [
        | inl z ↦ k.freed b z
        | inr z ↦ k.same b z t ∙ only b z
      ] in
      (
        h,
        h',
        cs,
        es,
        e,
        m-values h cs n c l ∙ ap some q,
        e',
        m-values h' es n k.linked l' ∙ ap some kept,
        kept,
        l',
        k.linked,
        only',
        only' 0 (has_0 h' es k.linked),
      )

  kept_frees :
      (data_ : List ℕ)
      → kept_onto p data_ [] ≢ []
      → (h : Heap) × (main malloc data_ 0 ≡ some (ended data_ (kept_onto p data_ []) h))
        × ((b : ℕ) → load b h ≡ none)
  unfolding main
  kept_frees data_ some_kept =
      let (h, h', cs, es, e1, e2, e3, e4, q, l, c, only, _) = filtered data_ in
      let (h'', e5, none_left) =
        all_freed h' es (suc (length data_)) (λ z. some_kept (sym q ∙ z)) c only l in
      (h'', rw (main, e1, e2, e3, e4, e5) refl, none_left)

  main_null : (data_ : List ℕ) → kept_onto p data_ [] ≡ [] → main malloc data_ 0 ≡ none
  unfolding main
  main_null data_ no_kept =
      let (h, h', cs, es, e1, e2, e3, e4, q, l, c, only, at_null) = filtered data_ in
      let e5 = not_freed h' es (length data_) (q ∙ no_kept) at_null in
      rw (main, e1, e2, e3, e4, e5) refl

  -- With memory, and 0 in `head` at the start: either `p` keeps a value, and `main` prints the data,
  -- then the kept values in reverse, uses no block that is not allocated, and frees them all; or it
  -- keeps none, and `main` reads the block at NULL.
  pub main-frees :
      (data_ : List ℕ)
      → ((kept_onto p data_ [] ≢ [])
          × ((h : Heap) × (main malloc data_ 0 ≡ some (ended data_ (kept_onto p data_ []) h))
              × ((b : ℕ) → load b h ≡ none)))
        ⊎ ((kept_onto p data_ [] ≡ []) × (main malloc data_ 0 ≡ none))
  main-frees data_ = elim (List-cases (kept_onto p data_ [])) [
    | inl e ↦ inr (e, main_null data_ e)
    | inr (x, xs, e) ↦
        let some_kept : kept_onto p data_ [] ≢ [] = λ z. ground (arith, e, z) in
        inl (some_kept, kept_frees data_ some_kept)
  ]

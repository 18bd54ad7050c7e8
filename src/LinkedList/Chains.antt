-- ===== src/LinkedList/Chains.antt =====
-- The heap of 3-asm/main.c, and the lists that stand on it.
use otus_c.Common.{ℕ, zero, suc, ◌<◌, ◌≡◌, ◌≢◌, refl, sym, ap, ◌∙◌, subst, arith, Bool, true, false}
use otus_c.Common.{none, some, inl, inr, List, [], ◌∷◌, ◌==◌, ==→≡, if◌then◌else◌}
use otus_c.Common.{length, Bool-cases, ◌⊎◌}
use otus_c.LinkedList.{Heap, load, free, m, free_all}

-- The blocks of a list: their addresses and values.
abbrev pub Blocks : Type 0
Blocks = List (ℕ × ℕ)

abbrev pub first : Blocks → ℕ
first [] = 0
first ((a, x) ∷ cs) = a

abbrev pub values : Blocks → List ℕ
values [] = []
values ((a, x) ∷ cs) = x ∷ values cs

-- Whether an address is that of a block.
abbrev pub has : ℕ → Blocks → Bool
has b [] = false
has b ((a, x) ∷ cs) = if b == a then true else has b cs

-- The blocks are linked on the heap, at different addresses.
abbrev pub Chain : Heap → Blocks → Type 0
Chain h [] = Unit
Chain h ((a, x) ∷ cs) =
    (a ≢ 0)
    × (load a h ≡ some (record { value = x; next = first cs }))
    × (has a cs ≡ false)
    × Chain h cs

pub load-free : (a : ℕ) (h : Heap) → load a (free a h) ≡ none
load-free a [] = refl
load-free a ((b, c) ∷ h) = elim (Bool-cases (a == b)) [
  | inl e ↦ rw (e) (load-free a h)
  | inr e ↦ rw (e, e) (load-free a h)
]

pub load-free_other : (a b : ℕ) (h : Heap) → a ≢ b → load b (free a h) ≡ load b h
load-free_other a b [] n = refl
load-free_other a b ((d, c) ∷ h) n = elim (Bool-cases (a == d)) [
  | inl e ↦
      let q : (b == d) ≡ false = ground (arith, ==→≡ a d e, n) in
      rw (e, q) (load-free_other a b h n)
  | inr e ↦ ground (arith, e, load-free_other a b h n)
]

pub has-head : (b a x : ℕ) (cs : Blocks) → b ≡ a → has b ((a, x) ∷ cs) ≡ true
has-head b a x cs e = ground (arith, e)

pub has-tail : (b a x : ℕ) (cs : Blocks) → has b cs ≡ true → has b ((a, x) ∷ cs) ≡ true
has-tail b a x cs e = ground (arith, e)

pub has-cases : (b a x : ℕ) (cs : Blocks) → has b ((a, x) ∷ cs) ≡ true → (b ≡ a) ⊎ (has b cs ≡ true)
has-cases b a x cs e = elim (Bool-cases (b == a)) [
  | inl q ↦ inl (==→≡ b a q)
  | inr q ↦ inr (ground (arith, q, e))
]

-- An address of a list is not free.
pub Chain-load : (h : Heap) (cs : Blocks) (b : ℕ) → Chain h cs → has b cs ≡ true → load b h ≢ none
Chain-load h [] b c e = absurd (ground (arith, e))
Chain-load h ((a, x) ∷ cs) b c e = elim (has-cases b a x cs e) [
  | inl q ↦ λ z. let t : load a h ≡ none = ap (λ a. load a h) (sym q) ∙ z in ground (arith, t, c.1)
  | inr q ↦ Chain-load h cs b c.3 q
]

-- A list stays where its blocks do.
pub Chain-frame :
    (h h' : Heap) (cs : Blocks)
    → Chain h cs
    → ((b : ℕ) → has b cs ≡ true → load b h' ≡ load b h)
    → Chain h' cs
Chain-frame h h' [] c k = tt
Chain-frame h h' ((a, x) ∷ cs) c k = (
  c.0,
  k a (has-head a a x cs refl) ∙ c.1,
  c.2,
  Chain-frame h h' cs c.3 (λ b e. k b (has-tail b a x cs e)),
)

-- `m` calls its function with the values of the list, in order.
pub m-values :
    (h : Heap) (cs : Blocks) (n : ℕ)
    → Chain h cs
    → length cs < n
    → m n (first cs) h ≡ some (values cs)
unfolding m
m-values h cs zero c l = absurd (omega arith)
m-values h [] (suc n) c l = refl
m-values h ((a, x) ∷ cs) (suc n) c l =
    let q : (a == 0) ≡ false = ground (arith, c.0) in
    rw (m, q, c.1, m-values h cs n c.3 (omega arith)) refl

-- The loop at the end of `main` frees the blocks of a list that is not empty, and no other.
pub free_all-Chain :
    (h : Heap) (a x : ℕ) (cs : Blocks) (n : ℕ)
    → Chain h ((a, x) ∷ cs)
    → length cs < n
    → (h' : Heap) × (free_all n a h ≡ some h')
      × ((b : ℕ) → has b ((a, x) ∷ cs) ≡ true → load b h' ≡ none)
      × ((b : ℕ) → has b ((a, x) ∷ cs) ≡ false → load b h' ≡ load b h)
unfolding free_all
free_all-Chain h a x cs zero c l = absurd (omega arith)
free_all-Chain h a x [] (suc n) c l = (
  free a h,
  rw (free_all, c.1) refl,
  λ b e.
      let q : a ≡ b = ground (arith, e) in subst (λ b. load b (free a h) ≡ none) q (load-free a h),
  λ b e. load-free_other a b h (ground (arith, e)),
)
free_all-Chain h a x ((a', x') ∷ cs) (suc n) c l =
    let cs' : Blocks = (a', x') ∷ cs in
    let away : (b : ℕ) → has b cs' ≡ true → a ≢ b = λ b e z.
      let t : has a cs' ≡ true = subst (λ b. has b cs' ≡ true) (sym z) e in
      ground (arith, t, c.2) in
    let kept = Chain-frame h (free a h) cs' c.3 (λ b e. load-free_other a b h (away b e)) in
    let (h', e, gone, same) = free_all-Chain (free a h) a' x' cs n kept (omega arith) in
    let q : (a' == 0) ≡ false = ground (arith, c.3.0) in
    (
      h',
      rw (free_all, c.1, q) e,
      λ b t. elim (has-cases b a x cs' t) [
        | inl z ↦ subst (λ b. load b h' ≡ none) (sym z) (same a c.2 ∙ load-free a h)
        | inr z ↦ gone b z
      ],
      λ b t.
          let u : has b cs' ≡ false = ground (arith, t) in
          let v : a ≢ b = ground (arith, t) in same b u ∙ load-free_other a b h v,
    )

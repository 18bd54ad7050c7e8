-- ===== src/LinkedList/Filter.antt =====
-- `f` of 3-asm/main.c: the new list has the values that are kept, in reverse, and the old one is
-- freed.
use otus_c.Common.{ℕ, zero, suc, ◌<◌, ◌≡◌, ◌≢◌, refl, sym, ap, ◌∙◌, subst, arith, true, false}
use otus_c.Common.{none, some, inl, inr, List, [], ◌∷◌, ◌==◌, ==→≡, ==→≢, ==_refl, if◌then◌else◌}
use otus_c.Common.{length, Bool-cases, ◌⊎◌}
use otus_c.LinkedList.{Heap, load, free, f, add_if, add_element}
use otus_c.LinkedList.Chains.{
  Blocks, first, values, has, Chain, load-free, load-free_other, has-head,
}
use otus_c.LinkedList.Chains.{has-tail, has-cases, Chain-load, Chain-frame}

-- The values for which `func` does not give 0, the last one first, before `ys`.
abbrev pub kept_onto : (ℕ → ℕ) → List ℕ → List ℕ → List ℕ
kept_onto func [] ys = ys
kept_onto func (x ∷ xs) ys = kept_onto func xs (if func x == 0 then ys else x ∷ ys)

-- What a heap and a list become when blocks are added in front of the list, and no other changes.
pub record Adds (h : Heap) (ds : Blocks) (h' : Heap) (es : Blocks) : Type 0 where
  pub linked : Chain h' es
  pub keeps : (b : ℕ) → has b ds ≡ true → has b es ≡ true
  pub new : (b : ℕ) → has b es ≡ true → (has b ds ≡ true) ⊎ (load b h ≡ none)
  pub stays : (b : ℕ) → load b h ≢ none → load b h' ≡ load b h
  pub same : (b : ℕ) → has b es ≡ false → load b h' ≡ load b h

-- The same, where the blocks of `cs` are freed.
pub record Moves (cs : Blocks) (h : Heap) (ds : Blocks) (h' : Heap) (es : Blocks) : Type 0 where
  pub linked : Chain h' es
  pub keeps : (b : ℕ) → has b ds ≡ true → has b es ≡ true
  pub new : (b : ℕ) → has b es ≡ true → (has b ds ≡ true) ⊎ (load b h ≡ none)
  pub stays : (b : ℕ) → has b cs ≡ false → load b h ≢ none → load b h' ≡ load b h
  pub same : (b : ℕ) → has b cs ≡ false → has b es ≡ false → load b h' ≡ load b h
  pub freed : (b : ℕ) → has b cs ≡ true → load b h' ≡ none

abbrev pub Apart : Blocks → Blocks → Type 0
Apart cs ds = (b : ℕ) → has b cs ≡ true → has b ds ≡ false

module _ (malloc : Heap → ℕ) (fresh : (h : Heap) → load (malloc h) h ≡ none)
    (memory : (h : Heap) → malloc h ≢ 0) where
  pub add_element-Adds :
      (x : ℕ) (ds : Blocks) (h : Heap)
      → Chain h ds
      → (h' : Heap) × (a : ℕ) × (add_element malloc x (first ds) h ≡ (a, h'))
        × (a ≢ 0)
        × Adds h ds h' ((a, x) ∷ ds)
  unfolding add_element
  add_element-Adds x ds h c =
      let a = malloc h in
      let h' : Heap = (a, record { value = x; next = first ds }) ∷ h in
      let q : (a == 0) ≡ false = ground (arith, memory h) in
      let other : (b : ℕ) → load b h ≢ none → b ≢ a = λ b n z. n (ap (λ b. load b h) z ∙ fresh h) in
      let stays : (b : ℕ) → load b h ≢ none → load b h' ≡ load b h =
        λ b n. ground (arith, other b n) in
      (
        h',
        a,
        rw (q) refl,
        memory h,
        record {
          linked = (
            memory h,
            rw (==_refl a) refl,
            elim (Bool-cases (has a ds)) [
              | inl t ↦ absurd (Chain-load h ds a c t (fresh h))
              | inr t ↦ t
            ],
            Chain-frame h h' ds c (λ b t. stays b (Chain-load h ds b c t)),
          );
          keeps = λ b t. has-tail b a x ds t;
          new = λ b t. elim (has-cases b a x ds t) [
            | inl z ↦ inr (ap (λ b. load b h) z ∙ fresh h)
            | inr z ↦ inl z
          ];
          stays = stays;
          same = λ b t. ground (arith, t);
        },
      )

  pub add_if-Adds :
      (res x : ℕ) (ds : Blocks) (h : Heap)
      → Chain h ds
      → (h' : Heap) × (es : Blocks) × (add_if malloc res x (first ds) h ≡ (first es, h'))
        × (values es ≡ (if res == 0 then values ds else x ∷ values ds))
        × Adds h ds h' es
  add_if-Adds res x ds h c = elim (Bool-cases (res == 0)) [
    | inl q ↦ (
      h,
      ds,
      rw (q) refl,
      rw (q) refl,
      record {
        linked = c;
        keeps = λ b t. t;
        new = λ b t. inl t;
        stays = λ b n. refl;
        same = λ b t. refl;
      },
    )
    | inr q ↦
        let (h', a, e, _, k) = add_element-Adds x ds h c in
        (h', (a, x) ∷ ds, rw (q) e, rw (q) refl, k)
  ]

  -- A round of `f`, from what its nested call does.
  round :
      (a x : ℕ) (cs ds es fs : Blocks) (h h1 h2 : Heap)
      → Chain h ((a, x) ∷ cs)
      → Apart ((a, x) ∷ cs) ds
      → Adds h ds h1 es
      → Moves cs h1 es h2 fs
      → (load a h2 ≡ load a h) × Moves ((a, x) ∷ cs) h ds (free a h2) fs
  round a x cs ds es fs h h1 h2 c apart k v =
      let live : load a h ≢ none = Chain-load h ((a, x) ∷ cs) a c (has-head a a x cs refl) in
      let kept1 = k.stays a live in
      let live1 : load a h1 ≢ none = λ z. live (sym kept1 ∙ z) in
      let kept2 = v.stays a c.2 live1 in
      let new : (b : ℕ) → has b fs ≡ true → (has b ds ≡ true) ⊎ (load b h ≡ none) = λ b t.
        elim (v.new b t) [
          | inl z ↦ k.new b z
          | inr z ↦ elim (Bool-cases (has b es)) [
            | inl y ↦ k.new b y
            | inr y ↦ inr (sym (k.same b y) ∙ z)
          ]
        ] in
      let away : (b : ℕ) → has b fs ≡ true → a ≢ b = λ b t z. elim (new b t) [
        | inl y ↦ let u = apart b (has-head b a x cs (sym z)) in ground (arith, u, y)
        | inr y ↦ live (ap (λ b. load b h) z ∙ y)
      ] in
      (
        kept2 ∙ kept1,
        record {
          linked =
              Chain-frame h2 (free a h2) fs v.linked (λ b t. load-free_other a b h2 (away b t));
          new = new;
          keeps = λ b t. v.keeps b (k.keeps b t);
          stays = λ b t n.
              let u : has b cs ≡ false = ground (arith, t) in
              let w : a ≢ b = ground (arith, t) in
              let s = k.stays b n in
              load-free_other a b h2 w ∙ v.stays b u (λ z. n (sym s ∙ z)) ∙ s;
          same = λ b t y.
              let u : has b cs ≡ false = ground (arith, t) in
              let w : a ≢ b = ground (arith, t) in
              elim (Bool-cases (has b es)) [
                | inl z ↦ let w' = v.keeps b z in absurd (ground (arith, w', y))
                | inr z ↦ load-free_other a b h2 w ∙ v.same b u y ∙ k.same b z
              ];
          freed = λ b t. elim (Bool-cases (a == b)) [
            | inl z ↦ subst (λ b. load b (free a h2) ≡ none) (==→≡ a b z) (load-free a h2)
            | inr z ↦ elim (has-cases b a x cs t) [
              | inl y ↦ absurd (ground (arith, y, z))
              | inr y ↦ load-free_other a b h2 (==→≢ a b z) ∙ v.freed b y
            ]
          ];
        },
      )

  -- `f` on two lists that share no block, with memory: with fuel for the first, it gives a list of
  -- the kept values in reverse, in front of the second; the blocks of the first are freed, new ones
  -- were free before, and nothing else changes.
  pub f-Moves :
      (func : ℕ → ℕ) (cs ds : Blocks) (h : Heap) (n : ℕ)
      → Chain h cs
      → Chain h ds
      → Apart cs ds
      → length cs < n
      → (h' : Heap) × (es : Blocks) × (f malloc n (first cs) (first ds) func h
          ≡ some (first es, h'))
        × (values es ≡ kept_onto func (values cs) (values ds))
        × Moves cs h ds h' es
  unfolding f
  f-Moves func cs ds h zero c d apart l = absurd (omega arith)
  f-Moves func [] ds h (suc n) c d apart l = (
    h,
    ds,
    refl,
    refl,
    record {
      linked = d;
      keeps = λ b t. t;
      new = λ b t. inl t;
      stays = λ b t m. refl;
      same = λ b t m. refl;
      freed = λ b t. absurd (ground (arith, t));
    },
  )
  f-Moves func ((a, x) ∷ cs) ds h (suc n) c d apart l =
      let (h1, es, e, q, k) = add_if-Adds (func x) x ds h d in
      let live : (b : ℕ) → has b cs ≡ true → load b h ≢ none = λ b t. Chain-load h cs b c.3 t in
      let c1 = Chain-frame h h1 cs c.3 (λ b t. k.stays b (live b t)) in
      let apart1 : Apart cs es = λ b t. elim (Bool-cases (has b es)) [
        | inr z ↦ z
        | inl z ↦ elim (k.new b z) [
          | inl y ↦ let u = apart b (has-tail b a x cs t) in absurd (ground (arith, u, y))
          | inr y ↦ absurd (live b t y)
        ]
      ] in
      let (h2, fs, e2, q2, v) = f-Moves func cs es h1 n c1 k.linked apart1 (omega arith) in
      let (same, v') = round a x cs ds es fs h h1 h2 c apart k v in
      let z : (a == 0) ≡ false = ground (arith, c.0) in
      (
        free a h2,
        fs,
        rw (f, z, c.1, e, e2, same, c.1) refl,
        q2 ∙ ap (kept_onto func (values cs)) q,
        v',
      )

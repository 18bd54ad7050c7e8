-- ===== src/Weather/Response.antt =====
-- The memory of the answer in 2-weather/main.c.
use otus_c.Common.{ℕ, ◌+◌, ◌^◌, ◌<◌, ◌≡◌, ◌≢◌, ◌⊎◌, refl, sym, ap, ◌∙◌, subst, arith}
use otus_c.Common.{Bool, true, false, none, some, List, [], ◌∷◌, ◌++◌, append_assoc, append-nil}
use otus_c.Common.{ltb, if◌then◌else◌, length, length-append, take, Bool-cases, inl, inr}
use otus_c.Weather.{Memory, stores, cb, Received, received, receive, written}
use otus_c.Common.{add64}

-- The parts up to the first for which there is no memory, and whether there is none.
abbrev pub taken : List (List ℕ × Bool) → List ℕ × Bool
taken [] = ([], true)
taken ((data_, memory) ∷ parts) =
    let rest = taken parts in if memory then (data_ ++ rest.0, rest.1) else ([], false)

abbrev pub total : List (List ℕ × Bool) → ℕ
total [] = 0
total ((data_, memory) ∷ parts) = length data_ + total parts

-- The memory holds the text, with a zero behind it where a part has been stored.
pub record HasText (t : List ℕ) (mem : Memory) : Type 0 where
  pub size : mem.size ≡ length t
  pub bytes : (mem.response ≡ some (t ++ (0 ∷ []))) ⊎ ((mem.response ≡ none) × (t ≡ []))

take-append : (t u : List ℕ) → take (length t) (t ++ u) ≡ t
take-append [] u = refl
take-append (x ∷ t) u = ap (λ l. x ∷ l) (take-append t u)

HasText-take :
    (t : List ℕ) (mem : Memory) → HasText t mem → take mem.size (written mem.response) ≡ t
HasText-take t mem h = elim h.bytes [
  | inl e ↦ rw (h.size, e) (take-append t (0 ∷ []))
  | inr (e, n) ↦ rw (h.size, e, n) refl
]

cb-HasText :
    (t data_ : List ℕ) (mem : Memory)
    → HasText t mem
    → length t + length data_ + 1 < 2 ^ 64
    → (mem' : Memory) × (cb data_ 1 true mem ≡ stores mem')
      × HasText (t ++ data_) mem'
      × (mem'.response ≢ none)
unfolding cb
cb-HasText t data_ mem h l =
    let kept = HasText-take t mem h in
    let bytes = t ++ (data_ ++ (0 ∷ [])) in
    let fits : ltb (add64 (add64 (length t) (length data_)) 1) (length t + length data_ + 1)
        ≡ false =
      ground (arith, l) in
    let size : add64 (length t) (length data_) ≡ length t + length data_ = omega (arith, l) in
    (
      record { response = some bytes; size = length t + length data_ },
      rw (h.size, fits, ← h.size, kept, h.size, size) refl,
      record {
        size = omega (arith, length-append t data_);
        bytes = inl (ap some (sym (append_assoc t data_ (0 ∷ []))));
      },
      λ z. ground (arith, z),
    )

-- From a memory that holds a text, with parts that do not reach the size of the address space: `cb`
-- writes within its blocks, and the memory then holds the text and the parts up to the first for
-- which there was no memory, where the transfer stops.
pub receive-HasText :
    (parts : List (List ℕ × Bool)) (t : List ℕ) (mem : Memory)
    → HasText t mem
    → length t + total parts + 1 < 2 ^ 64
    → (mem' : Memory) × (receive parts mem ≡ received mem' (taken parts).1)
      × HasText (t ++ (taken parts).0) mem'
unfolding receive
receive-HasText [] t mem h l = (mem, refl, subst (λ t. HasText t mem) (sym (append-nil t)) h)
receive-HasText ((data_, false) ∷ parts) t mem h l =
    (mem, refl, subst (λ t. HasText t mem) (sym (append-nil t)) h)
receive-HasText ((data_, true) ∷ parts) t mem h l =
    let (mem', e, h', _) = cb-HasText t data_ mem h (omega arith) in
    let (mem'', e', h'') =
      receive-HasText parts (t ++ data_) mem' h' (omega (arith, length-append t data_)) in
    (
      mem'',
      rw (receive, e) e',
      subst (λ t. HasText t mem'') (append_assoc t data_ (taken parts).0) h'',
    )

-- A block that was there, or that a part was stored to, is there at the end.
receive-kept :
    (parts : List (List ℕ × Bool)) (mem mem' : Memory) (ok : Bool)
    → mem.response ≢ none
    → receive parts mem ≡ received mem' ok
    → mem'.response ≢ none
unfolding receive cb
receive-kept [] mem mem' ok n e = let p : mem ≡ mem' = cc in subst (λ m. m.response ≢ none) p n
receive-kept ((data_, false) ∷ parts) mem mem' ok n e =
    let p : mem ≡ mem' = cc in subst (λ m. m.response ≢ none) p n
receive-kept ((data_, true) ∷ parts) mem mem' ok n e =
    let asked = add64 (add64 mem.size (length data_)) 1 in
    elim (Bool-cases (ltb asked (mem.size + length data_ + 1))) [
      | inl p ↦ absurd (ground (arith, p, e))
      | inr p ↦
          let mem1 : Memory = record {
            response = some (take mem.size (written mem.response) ++ (data_ ++ (0 ∷ [])));
            size = add64 mem.size (length data_);
          } in
          let e' : receive parts mem1 ≡ received mem' ok = ground (arith, p, e) in
          receive-kept parts mem1 mem' ok (λ z. ground (arith, z)) e'
    ]

first_part :
    (data_ : List ℕ) (parts : List (List ℕ × Bool)) (mem mem1 : Memory) (r : Received)
    → cb data_ 1 true mem ≡ stores mem1
    → receive ((data_, true) ∷ parts) mem ≡ r
    → receive parts mem1 ≡ r
unfolding receive
first_part data_ parts mem mem1 r e q = ground (arith, e, q)

-- With memory for all parts, of which there is one at least.
pub receive-all :
    (part : List ℕ × Bool) (parts : List (List ℕ × Bool))
    → (taken (part ∷ parts)).1 ≡ true
    → total (part ∷ parts) + 1 < 2 ^ 64
    → (mem : Memory) × (receive (part ∷ parts) (record { response = none; size = 0 })
        ≡ received mem true)
      × (mem.response ≡ some ((taken (part ∷ parts)).0 ++ (0 ∷ [])))
unfolding receive
receive-all (data_, false) parts d l = absurd (ground (arith, d))
receive-all (data_, true) parts d l =
    let empty : Memory = record { response = none; size = 0 } in
    let start : HasText [] empty = record { size = refl; bytes = inr (refl, refl) } in
    let (mem, r, h) = receive-HasText ((data_, true) ∷ parts) [] empty start (omega (arith, l)) in
    let (mem1, r1, h1, n1) = cb-HasText [] data_ empty start (omega (arith, l)) in
    (
      mem,
      r ∙ ap (λ b. received mem b) d,
      elim h.bytes [
        | inl e ↦ e
        | inr (e, _) ↦
            absurd (receive-kept parts mem1 mem _ n1 (first_part data_ parts empty mem1 _ r1 r) e)
      ],
    )

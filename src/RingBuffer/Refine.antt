-- ===== src/RingBuffer/Refine.antt =====
-- The bytes that a ring buffer of 14-module/main.c holds, oldest first, and what one round of
-- `rb_read` and of `rb_write` does to them.
use otus_c.Common.{ℕ, zero, suc, ◌+◌, ◌-◌, ◌≤◌, ◌<◌, ◌≡◌, refl, ap, ap₂, ◌∙◌, List, [], ◌∷◌}
use otus_c.Common.{◌++◌, arith, length, get_or, set}
use otus_c.Common.{get_or-set_self, get_or-set_ne, length-append, keep_last}
use otus_c.Common.{keep_last_short}
use otus_c.RingBuffer.{RingBuffer, consume, put_byte}
use native.Mathlib.Decide.{dec_lt}
use otus_c.Common.{sym, drop}
use otus_c.RingBuffer.Inv.{consume_lem, put_byte-room, put_byte-full, IsValid, wrap}

module _ (size : ℕ) where
  -- The `n` bytes of `buf` from index `t` on, round the end at `size`.
  abbrev pub slice : List ℕ → ℕ → ℕ → List ℕ
  slice buf t zero = []
  slice buf t (suc n) = get_or buf t 0 ∷ slice buf (wrap size (t + 1)) n

  length-slice : (buf : List ℕ) (t n : ℕ) → length (slice buf t n) ≡ n
  length-slice buf t zero = refl
  length-slice buf t (suc n) = ap suc (length-slice buf (wrap size (t + 1)) n)

  slice-snoc :
      (buf : List ℕ) (t n : ℕ)
      → t < size
      → n < size
      → slice buf t (suc n) ≡ slice buf t n ++ (get_or buf (wrap size (t + n)) 0 ∷ [])
  slice-snoc buf t zero h k = ap (λ j. get_or buf j 0 ∷ []) {x = t} (ground arith)
  slice-snoc buf t (suc n) h k =
      ap (λ l. get_or buf t 0 ∷ l)
        (slice-snoc buf (wrap size (t + 1)) n (ground arith) (omega arith)
          ∙ ap (λ j. slice buf (wrap size (t + 1)) n ++ (get_or buf j 0 ∷ []))
              {x = wrap size (wrap size (t + 1) + n)} (ground arith))

  -- A write at distance `m` from the start leaves a shorter slice alone.
  slice-set :
      (buf : List ℕ) (t n m i v : ℕ)
      → t < size
      → n ≤ m
      → m < size
      → i ≡ wrap size (t + m)
      → slice (set buf i v) t n ≡ slice buf t n
  slice-set buf t zero m i v h k l e = refl
  slice-set buf t (suc n) zero i v h k l e = absurd (omega arith)
  slice-set buf t (suc n) (suc m) i v h k l e = ap₂ ◌∷◌ (get_or-set_ne buf i t v 0 (ground arith)) (
      slice-set buf (wrap size (t + 1)) n m i v (ground arith) (omega arith) (omega arith)
        (ground arith))

  -- A write just past a slice extends it.
  slice-set_end :
      (buf : List ℕ) (t n i v : ℕ)
      → t < size
      → n < size
      → length buf ≡ size
      → i ≡ wrap size (t + n)
      → slice (set buf i v) t (suc n) ≡ slice buf t n ++ (v ∷ [])
  slice-set_end buf t n i v h k l e =
      slice-snoc (set buf i v) t n h k
      ∙ ap₂ (λ xs x. xs ++ (x ∷ [])) (slice-set buf t n n i v h (omega arith) k e)
          (rw (← e) (get_or-set_self buf i v 0 (ground arith)))

-- The bytes of a buffer, oldest first.
abbrev pub contents : RingBuffer → List ℕ
contents rb = slice rb.size rb.buffer rb.tail rb.count

pub length-contents : (rb : RingBuffer) → length (contents rb) ≡ rb.count
length-contents rb = length-slice rb.size rb.buffer rb.tail rb.count

pub contents-consume :
    {rb : RingBuffer}
    → IsValid rb
    → 0 < rb.count
    → contents rb ≡ get_or rb.buffer rb.tail 0 ∷ contents (consume rb)
contents-consume {rb} v h = rw (consume_lem v h) (
    ap (λ n. slice rb.size rb.buffer rb.tail n) {x = rb.count} {y = suc (rb.count - 1)}
      (omega arith))

-- A byte that is put goes behind the others; a full buffer gives up its oldest one.
pub contents-put_byte :
    {rb : RingBuffer} (b : ℕ)
    → IsValid rb
    → contents (put_byte rb b) ≡ keep_last rb.size (contents rb ++ (b ∷ []))
contents-put_byte {rb} b v = elim (dec_lt rb.count rb.size) [
  | yes room ↦ rw (put_byte-room b v room) (
      ap (λ n. slice rb.size (set rb.buffer rb.head b) rb.tail n) {x = rb.count + 1}
        {y = suc rb.count} (omega arith)
      ∙ slice-set_end rb.size rb.buffer rb.tail rb.count rb.head b v.tail_in room v.storage
          v.head_at
      ∙ sym (
          keep_last_short rb.size (contents rb ++ (b ∷ []))
            (omega (arith, length-append (contents rb) (b ∷ []), length-contents rb))))
  | no full ↦
      let e : rb.count ≡ rb.size = omega arith in
      let rest = slice rb.size rb.buffer (wrap rb.size (rb.tail + 1)) (rb.size - 1) in
      let n : rb.count ≡ suc (rb.size - 1) = omega arith in
      rw (put_byte-full b v e, n)
        (slice-set_end rb.size rb.buffer (wrap rb.size (rb.tail + 1)) (rb.size - 1) rb.head b
            (ground arith) (omega arith) v.storage (ground arith)
          ∙ ap (λ k. drop k (get_or rb.buffer rb.tail 0 ∷ (rest ++ (b ∷ [])))) {x = 1}
              (omega (
                arith,
                length-append rest (b ∷ []),
                length-slice rb.size rb.buffer (wrap rb.size (rb.tail + 1)) (rb.size - 1),
              )))
]

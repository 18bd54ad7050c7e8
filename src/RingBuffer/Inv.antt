-- ===== src/RingBuffer/Inv.antt =====
-- The representation invariant of the ring buffer of 14-module/main.c: indices in range, and the
-- head where the tail and the count say.
use otus_c.Common.{ℕ, ◌+◌, ◌-◌, ◌^◌, ◌≤◌, ◌<◌, ◌≡◌, List}
use otus_c.Common.{some, arith, ltb, if◌then◌else◌, length, length-set}
use native.Mathlib.Nat.{mod-eq_of_lt, mod-eq-sub-mod}
use native.Mathlib.Decide.{dec_lt}
use otus_c.Common.{to_int, size_of_int}
use otus_c.Common.{set}
use otus_c.RingBuffer.{RingBuffer, next, consume, put_byte, Alloc}

-- `k % size` for `k` below twice the size.
abbrev pub wrap : ℕ → ℕ → ℕ
wrap size k = if ltb k size then k else k - size

pub record IsValid (rb : RingBuffer) : Type 0 where
  pub nonempty : 0 < rb.size
  pub small : rb.size < 2 ^ 31
  pub storage : length rb.buffer ≡ rb.size
  pub head_in : rb.head < rb.size
  pub tail_in : rb.tail < rb.size
  pub count_in : rb.count ≤ rb.size
  pub head_at : rb.head ≡ wrap rb.size (rb.tail + rb.count)

-- A block has the length asked for, and none is larger than 2 ^ 31 (KMALLOC_MAX_SIZE is below).
abbrev pub Allocates : Alloc → Type 0
Allocates alloc = (n : ℕ) (b : List ℕ) → alloc n ≡ some b → (length b ≡ n) × (n < 2 ^ 31)

pub next-wrap : (size i : ℕ) → size < 2 ^ 31 → i < size → next size i ≡ wrap size (i + 1)
unfolding next
next-wrap size i h k = rw inner (elim (dec_lt (i + 1) size) [
  | yes p ↦ ground (arith, mod-eq_of_lt {n = i + 1} {m = size} p)
  | no p ↦ ground (
    arith,
    mod-eq-sub-mod {n = i + 1} {m = size} (omega arith),
    mod-eq_of_lt {n = i + 1 - size} {m = size} (omega arith),
  )
])
  where
    inner : size_of_int (to_int (i + 1)) ≡ i + 1
    inner = ground arith

-- What a round leaves, with the conversions of its integers worked out.
pub consume_lem :
    {rb : RingBuffer}
    → IsValid rb
    → 0 < rb.count
    → consume rb ≡ record rb { tail = wrap rb.size (rb.tail + 1); count = rb.count - 1 }
unfolding consume
consume_lem {rb} v h = ground (arith, next-wrap rb.size rb.tail v.small v.tail_in)

pub put_byte-room :
    {rb : RingBuffer} (b : ℕ)
    → IsValid rb
    → rb.count < rb.size
    → put_byte rb b ≡ record rb {
      buffer = set rb.buffer rb.head b;
      head = wrap rb.size (rb.head + 1);
      count = rb.count + 1;
    }
unfolding put_byte
put_byte-room {rb} b v h = ground (arith, next-wrap rb.size rb.head v.small v.head_in)

pub put_byte-full :
    {rb : RingBuffer} (b : ℕ)
    → IsValid rb
    → rb.count ≡ rb.size
    → put_byte rb b ≡ record rb {
      buffer = set rb.buffer rb.head b;
      head = wrap rb.size (rb.head + 1);
      tail = wrap rb.size (rb.tail + 1);
    }
unfolding put_byte
put_byte-full {rb} b v h = ground (
  arith,
  next-wrap rb.size rb.head v.small v.head_in,
  next-wrap rb.size rb.tail v.small v.tail_in,
)

pub consume-IsValid : {rb : RingBuffer} → IsValid rb → 0 < rb.count → IsValid (consume rb)
consume-IsValid {rb} v h = rw (consume_lem v h) (ground arith)

pub put_byte-IsValid : {rb : RingBuffer} (b : ℕ) → IsValid rb → IsValid (put_byte rb b)
put_byte-IsValid {rb} b v = elim (dec_lt rb.count rb.size) [
  | yes room ↦ rw (put_byte-room b v room) (ground (arith, length-set rb.buffer rb.head b))
  | no full ↦
      let e : rb.count ≡ rb.size = omega arith in
      rw (put_byte-full b v e) (ground (arith, length-set rb.buffer rb.head b))
]

pub size-put_byte : (rb : RingBuffer) (b : ℕ) → (put_byte rb b).size ≡ rb.size
unfolding put_byte
size-put_byte rb b = ground arith

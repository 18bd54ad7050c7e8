-- ===== src/RingBuffer/Device.antt =====
-- The file operations and the sysfs attribute of 14-module/main.c against the sequence of bytes
-- that the buffer holds.
use otus_c.Common.{ℕ, zero, suc, ◌+◌, ◌%◌, ◌^◌, ◌≤◌, min, ◌≡◌, refl, sym, ap, ap₂, ◌∙◌, List}
use otus_c.Common.{[], ◌∷◌, ◌++◌, append_assoc, append-nil, Bool, true, false, Bool-cases, inl, inr}
use otus_c.Common.{
  Option, none, some, Option-cases, arith, ltb, ◌==◌, if◌then◌else◌, length, take, drop,
}
use otus_c.Common.{keep_last, keep_last_short, keep_last-keep_last-append}
use otus_c.Common.{get_or, size_of_int}
use otus_c.RingBuffer.{RingBuffer, Loop, ret, fail, efault}
use otus_c.RingBuffer.{consume, put_byte, read_loop, write_loop, to_read, rounds, rb_read, rb_write}
use otus_c.RingBuffer.Inv.{IsValid, consume_lem, consume-IsValid, put_byte-IsValid, size-put_byte}
use otus_c.RingBuffer.Refine.{contents, length-contents, contents-consume, contents-put_byte}

-- How many of `n` bytes from `i` on go to the user before a copy faults.
abbrev pub served : (ℕ → Bool) → ℕ → ℕ → ℕ
served fault zero i = 0
served fault (suc n) i = if fault i then 0 else suc (served fault n (i + 1))

-- The bytes that are read from the user, up to the first fault.
abbrev pub readable : (ℕ → Option ℕ) → ℕ → ℕ → List ℕ
readable user zero i = []
readable user (suc n) i = elim (user i) [ none ↦ [] | some b ↦ b ∷ readable user n (i + 1) ]

record Served (rb : RingBuffer) (sent : List ℕ) (left k : ℕ) (l : Loop) : Type 0 where
  valid : IsValid l.rb
  same_size : l.rb.size ≡ rb.size
  left_over : contents l.rb ≡ drop k (contents rb)
  copied : l.sent ≡ sent ++ take k (contents rb)
  stopped : l.faulted ≡ ltb k left

read_loop-Served :
    (fault : ℕ → Bool) (left i : ℕ) (rb : RingBuffer) (sent : List ℕ)
    → IsValid rb
    → left ≤ rb.count
    → Served rb sent left (served fault left i) (read_loop fault left i rb sent)
unfolding read_loop
read_loop-Served fault zero i rb sent v h = record {
  valid = v;
  same_size = refl;
  left_over = refl;
  copied = sym (append-nil sent);
  stopped = refl;
}
read_loop-Served fault (suc left) i rb sent v h = elim (Bool-cases (fault i)) [
  | inl f ↦ rw f (record {
    valid = v;
    same_size = refl;
    left_over = refl;
    copied = sym (append-nil sent);
    stopped = ground arith;
  })
  | inr f ↦
      let b = get_or rb.buffer rb.tail 0 in
      let here = contents-consume v (omega arith) in
      let step = consume_lem v (omega arith) in
      let fewer = ap (λ (r : RingBuffer). r.count) step in
      let rest =
        read_loop-Served fault left (i + 1) (consume rb) (sent ++ (b ∷ []))
          (consume-IsValid v (omega arith)) (omega arith) in
      rw f (record {
        valid = rest.valid;
        same_size = rest.same_size ∙ ap (λ (r : RingBuffer). r.size) step;
        left_over = rw here rest.left_over;
        copied = rw here (rest.copied ∙ append_assoc sent (b ∷ []) _);
        stopped = rest.stopped ∙ ground arith;
      })
]

record Stored (rb : RingBuffer) (left : ℕ) (bytes : List ℕ) (l : Loop) : Type 0 where
  valid : IsValid l.rb
  same_size : l.rb.size ≡ rb.size
  holds : contents l.rb ≡ keep_last rb.size (contents rb ++ bytes)
  stopped : l.faulted ≡ ltb (length bytes) left

Stored-none :
    (rb : RingBuffer) (left : ℕ) (l : Loop)
    → IsValid rb
    → l.rb ≡ rb
    → l.faulted ≡ ltb 0 left
    → Stored rb left [] l
Stored-none rb left l v e f = record {
  valid = rw e v;
  same_size = ap (λ (r : RingBuffer). r.size) e;
  holds =
      ap contents e
      ∙ rw append-nil (sym (keep_last_short rb.size _ (omega (arith, length-contents rb))));
  stopped = f;
}

write_loop-Stored :
    (user : ℕ → Option ℕ) (left i : ℕ) (rb : RingBuffer)
    → IsValid rb
    → Stored rb left (readable user left i) (write_loop user left i rb)
unfolding write_loop
write_loop-Stored user zero i rb v = Stored-none rb 0 _ v refl refl
write_loop-Stored user (suc left) i rb v = elim (Option-cases (user i)) [
  | inl f ↦ rw (f, write_loop, readable) (Stored-none rb (suc left) _ v refl (ground arith))
  | inr (b, f) ↦
      let rest = write_loop-Stored user left (i + 1) (put_byte rb b) (put_byte-IsValid b v) in
      rw (f, write_loop, readable)
        (record {
          valid = rest.valid;
          same_size = rest.same_size ∙ size-put_byte rb b;
          holds =
              rest.holds
              ∙ ap₂ (λ n xs. keep_last n (xs ++ readable user left (i + 1))) (size-put_byte rb b)
                  (contents-put_byte b v)
              ∙ keep_last-keep_last-append rb.size (contents rb ++ (b ∷ [])) _
              ∙ ap (keep_last rb.size) (append_assoc (contents rb) (b ∷ []) _);
          stopped = rest.stopped ∙ ground arith;
        })
]

served-le : (fault : ℕ → Bool) (n i : ℕ) → served fault n i ≤ n
served-le fault zero i = omega arith
served-le fault (suc n) i = ground (arith, served-le fault n (i + 1))

length-readable : (user : ℕ → Option ℕ) (n i : ℕ) → length (readable user n i) ≤ n
length-readable user zero i = omega arith
length-readable user (suc n) i = ground (arith, length-readable user n (i + 1))

to_read-min :
    {rb : RingBuffer} (count : ℕ)
    → IsValid rb
    → let n = min count rb.count in (to_read count rb ≡ n) × (rounds n ≡ n) × (size_of_int n ≡ n)
unfolding to_read rounds
to_read-min {rb} count v = (ground arith, ground arith, ground arith)

-- What `rb_read` does on a valid buffer, which stays valid, when no signal ends its wait for the lock: of the
-- `n = min count (bytes held)` bytes it passes on, oldest first, those before the first fault,
-- takes exactly these out of the buffer, whose size stays, and releases the lock. It returns `n` and moves the
-- offset by `n` if no copy faults; else it returns -EFAULT and leaves the offset.
pub rb_read_lem :
    (fault : ℕ → Bool) (rb : RingBuffer) (count offset : ℕ)
    → IsValid rb
    → let n = min count rb.count in
      let k = served fault n 0 in
      let o = rb_read false fault rb count offset in
      IsValid o.rb
      × (o.rb.lock ≡ false)
      × (o.rb.size ≡ rb.size)
      × (o.sent ≡ take k (contents rb))
      × (contents o.rb ≡ drop k (contents rb))
      × (o.offset ≡ (if k == n then (offset + n) % 2 ^ 64 else offset))
      × (o.result ≡ (if k == n then ret n else fail efault))
unfolding rb_read
rb_read_lem fault rb count offset v =
    let n = min count rb.count in
    let (asked, whole, same) = to_read-min count v in
    let locked = record rb { lock = true } in
    let done = read_loop-Served fault n 0 locked [] (ground arith) (omega arith) in
    rw (asked, whole, same) (ground (arith, done, served-le fault n 0))

-- What `rb_write` does on a valid buffer when no signal ends its wait for the lock: with the
-- bytes of the user up to the first fault behind those held before, the buffer keeps the last
-- `size` of them, stays valid and of the same size, and releases the lock. It returns `count` and moves the offset
-- by `count` if no copy faults; else it returns -EFAULT and leaves the offset.
pub rb_write_lem :
    (user : ℕ → Option ℕ) (rb : RingBuffer) (count offset : ℕ)
    → IsValid rb
    → let bytes = readable user count 0 in
      let o = rb_write false user rb count offset in
      IsValid o.rb
      × (o.rb.lock ≡ false)
      × (o.rb.size ≡ rb.size)
      × (contents o.rb ≡ keep_last rb.size (contents rb ++ bytes))
      × (o.offset ≡ (if length bytes == count then (offset + count) % 2 ^ 64 else offset))
      × (o.result ≡ (if length bytes == count then ret count else fail efault))
unfolding rb_write
rb_write_lem user rb count offset v =
    let done = write_loop-Stored user count 0 (record rb { lock = true }) (ground arith) in
    ground (arith, done, length-readable user count 0)

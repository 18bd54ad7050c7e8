-- ===== src/RingBuffer/Log.antt =====
-- What a client may know of the device of 14-module/main.c: a bounded log of bytes that forgets
-- its oldest ones. Every sequence of calls gets the replies of this log.
use otus_c.Common.{ℕ, ◌<◌, min, ◌≡◌, refl, ap, ap₂, ◌∙◌, List}
use otus_c.Common.{[], ◌∷◌, ◌++◌, ◌⊎◌, true, false, inl, inr, not}
use otus_c.Common.{
  none, some, Option-cases, arith, ◌==◌, if◌then◌else◌, length, take, drop, keep_last,
}
use otus_c.RingBuffer.{
  RingBuffer, Return, ret, fail, efault, erestartsys, einval, enomem, rb_read, rb_write,
}
use otus_c.RingBuffer.{
  rb_ioctl, Alloc, buffer_size_store, Request, read, write, ioctl, resize, Reply, serve, run,
}
use otus_c.RingBuffer.{ready, no_memory, init_rb}
use otus_c.RingBuffer.Inv.{IsValid, Allocates}
use otus_c.RingBuffer.Refine.{contents, length-contents}
use otus_c.RingBuffer.Device.{served, readable, rb_read_lem, rb_write_lem}

pub record Log : Type 0 where
  pub cap : ℕ
  pub bytes : List ℕ

abbrev pub finished : ℕ → ℕ → Return
finished done asked = if done == asked then ret asked else fail efault

module _ (kzalloc : Alloc) (wipe : ℕ) where
  abbrev pub answer : Log → Request → Log × Reply
  answer l (read true fault count offset) = (l, ([], fail erestartsys))
  answer l (read false fault count offset) =
      let n = min count (length l.bytes) in
      let k = served fault n 0 in
      (record l { bytes = drop k l.bytes }, (take k l.bytes, finished k n))
  answer l (write true user count offset) = (l, ([], fail erestartsys))
  answer l (write false user count offset) =
      let new = readable user count 0 in
      (record l { bytes = keep_last l.cap (l.bytes ++ new) }, ([], finished (length new) count))
  answer l (ioctl i cmd) =
      if not (cmd == wipe)
      then (l, ([], fail einval))
      else if i
      then (l, ([], fail erestartsys))
      else (record l { bytes = [] }, ([], ret 0))
  answer l (resize i none count) = (l, ([], fail einval))
  answer l (resize i (some n) count) =
      if n == 0
      then (l, ([], fail einval))
      else if i
      then (l, ([], fail erestartsys))
      else elim (kzalloc n) [
        | none ↦ (l, ([], fail enomem))
        | some b ↦ (record { cap = n; bytes = [] }, ([], ret count))
      ]

  pub answers : Log → List Request → List Reply
  answers l [] = []
  answers l (q ∷ qs) = let (l', r) = answer l q in r ∷ answers l' qs

abbrev pub view : RingBuffer → Log
view rb = record { cap = rb.size; bytes = contents rb }

module _ (kzalloc : Alloc) (wipe : ℕ) (sound : Allocates kzalloc) where
  pub record Agrees (rb : RingBuffer) (q : Request) : Type 0 where
    pub valid : IsValid (serve kzalloc wipe rb q).0
    pub same :
        (view (serve kzalloc wipe rb q).0, (serve kzalloc wipe rb q).1)
        ≡ answer kzalloc wipe (view rb) q

  pub serve-Agrees : (rb : RingBuffer) (q : Request) → IsValid rb → Agrees rb q
  unfolding serve rb_read rb_write rb_ioctl buffer_size_store
  serve-Agrees rb (read true fault count offset) v = record { valid = v; same = refl }
  serve-Agrees rb (read false fault count offset) v =
      ground (arith, rb_read_lem fault rb count offset v, length-contents rb)
  serve-Agrees rb (write true user count offset) v = record { valid = v; same = refl }
  serve-Agrees rb (write false user count offset) v =
      ground (arith, rb_write_lem user rb count offset v)
  serve-Agrees rb (ioctl i cmd) v = ground arith
  serve-Agrees rb (resize i none count) v = record { valid = v; same = refl }
  serve-Agrees rb (resize i (some n) count) v = elim (Option-cases (kzalloc n)) [
    | inl e ↦ ground (arith, e)
    | inr (b, e) ↦ ground (arith, sound n b e, e)
  ]

  -- A valid buffer answers every sequence of calls, with every pattern of signals, faults, failed
  -- allocations and unparsable sizes, as the log of its bytes does, provided that the allocator
  -- gives blocks of the length asked for, below 2 ^ 31.
  pub run_refines :
      (qs : List Request) (rb : RingBuffer)
      → IsValid rb
      → run kzalloc wipe rb qs ≡ answers kzalloc wipe (view rb) qs
  unfolding run answers
  run_refines [] rb v = refl
  run_refines (q ∷ qs) rb v =
      let a = serve-Agrees rb q v in
      ap₂ ◌∷◌ (ap (λ p. p.1) a.same) (
        run_refines qs (serve kzalloc wipe rb q).0 a.valid
        ∙ ap (λ p. answers kzalloc wipe p.0 qs) a.same)

  -- `init_rb` with a size from 1 to 2 ^ 31 - 1 gives a valid buffer that holds nothing, or reports
  -- that there is no memory, if the structure itself is allocated.
  pub init_rb_lem :
      (size : ℕ)
      → 0 < size
      → ((rb : RingBuffer) × (init_rb true kzalloc size ≡ ready rb)
          × IsValid rb
          × (view rb ≡ record { cap = size; bytes = [] }))
        ⊎ (init_rb true kzalloc size ≡ no_memory)
  unfolding init_rb
  init_rb_lem size h = elim (Option-cases (kzalloc size)) [
    | inl e ↦ inr (ground (arith, e))
    | inr (b, e) ↦ inl (
      record { buffer = b; size = size; head = 0; tail = 0; count = 0; lock = false },
      ground (arith, e),
      ground (arith, sound size b e),
      refl,
    )
  ]

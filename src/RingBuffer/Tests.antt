-- ===== src/RingBuffer/Tests.antt =====
-- Runs of the ring buffer of 14-module/main.c on small inputs, and the theorems at such inputs.
use otus_c.Common.{ℕ, ◌≡◌, refl, ◌≤◌, List, [], ◌∷◌, Bool, true, false, Option, none, some}
use otus_c.Common.{arith, ltb, if◌then◌else◌, get_elem?, replicate, length-replicate}
use otus_c.RingBuffer.{
  RingBuffer, ret, fail, ebusy, efault, einval, rb_open, rb_release, rb_read, rb_write,
}
use otus_c.RingBuffer.{
  Alloc, Request, read, write, ioctl, resize, Reply, run, serve, init_rb, ready, no_memory,
}
use otus_c.RingBuffer.Inv.{IsValid, Allocates}
use otus_c.RingBuffer.Log.{run_refines, answers, view}
use otus_c.RingBuffer.Open.{Files, Reach, here, next, opens, closed, open_exclusive}

-- The bytes 7, 8 in a buffer of three, across its end.
abbrev two_bytes : RingBuffer
two_bytes = record {
  buffer = 8 ∷ 5 ∷ 7 ∷ [];
  size = 3;
  head = 1;
  tail = 2;
  count = 2;
  lock = false;
}

abbrev memory : Alloc
memory n = if ltb n 100 then some (replicate n 0) else none

memory-Allocates : Allocates memory
memory-Allocates n b e = ground (arith, length-replicate {A = ℕ} n 0)

two_bytes-IsValid : IsValid two_bytes
two_bytes-IsValid = ground arith

abbrev from_user : ℕ → Option ℕ
from_user = get_elem? (10 ∷ 11 ∷ 12 ∷ [])

abbrev no_fault : ℕ → Bool
no_fault i = false

abbrev script : List Request
script =
    write false from_user 3 0
    ∷ read false no_fault 2 0
    ∷ write false from_user 4 0
    ∷ ioctl false 9
    ∷ resize false (some 0) 2
    ∷ read false no_fault 9 0
    ∷ []

script_runs :
    run memory 7 two_bytes script
    ≡ ([], ret 3)
      ∷ (10 ∷ 11 ∷ [], ret 2)
      ∷ ([], fail efault)
      ∷ ([], fail einval)
      ∷ ([], fail einval)
      ∷ (10 ∷ 11 ∷ 12 ∷ [], ret 3)
      ∷ []
unfolding run serve rb_read rb_write otus_c.RingBuffer.rb_ioctl otus_c.RingBuffer.buffer_size_store
script_runs = refl

run_refines_example : run memory 7 two_bytes script ≡ answers memory 7 (view two_bytes) script
run_refines_example = run_refines memory 7 memory-Allocates script two_bytes two_bytes-IsValid

abbrev one_open : Files
one_open = record { held = true; opened = 1 }

one_open-Reach : Reach closed one_open
unfolding rb_open
one_open-Reach = next here (opens closed one_open refl refl)

open_exclusive_example :
    (1 ≤ 1)
    × ((rb_open true).1 ≡ fail ebusy → ◌≡◌ {A = ℕ} 1 1)
    × (◌≡◌ {A = ℕ} 1 1 → (rb_open true).1 ≡ fail ebusy)
open_exclusive_example = open_exclusive one_open-Reach

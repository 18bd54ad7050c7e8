-- ===== src/HttpServer/Shutdown.antt =====
-- How the workers of 12-server/main.c end: the signal handler writes to the pipe, and each worker
-- that sees it takes one byte and leaves its loop.
use otus_c.Common.{ℕ, ◌+◌, ◌-◌, ◌*◌, ◌≤◌, ◌≡◌, arith}

-- The workers that have not left their loops, and the bytes in the pipe.
pub record Pipe : Type 0 where
  pub running : ℕ
  pub bytes : ℕ

-- An `int` of 4 bytes for each of the processors.
unfoldable pub signal_handler : ℕ → Pipe → Pipe
signal_handler cores s = record s { bytes = s.bytes + cores * 4 }

-- `read(pipe_fds[0], &i, 1)`, and the end of the loop; `read` finds no byte in an empty pipe.
unfoldable pub leave_loop : Pipe → Pipe
leave_loop s = record { running = s.running - 1; bytes = s.bytes - 1 }

-- What may happen: a signal, or, while the pipe is readable, a worker leaves.
pub data Step (cores : ℕ) : Pipe → Pipe → Type 0 where
  signalled : (s : Pipe) → Step cores s (signal_handler cores s)
  leaves : (s : Pipe) → 1 ≤ s.running → 1 ≤ s.bytes → Step cores s (leave_loop s)

pub data Steps (cores : ℕ) : Pipe → Pipe → Type 0 where
  done : (s : Pipe) → Steps cores s s
  next : {s t u : Pipe} → Step cores s t → Steps cores t u → Steps cores s u

enough_kept : {cores : ℕ} {s t : Pipe} → Step cores s t → s.running ≤ s.bytes → t.running ≤ t.bytes
unfolding signal_handler leave_loop
enough_kept (signalled s) h = omega arith
enough_kept (leaves s r b) h = omega arith

all_kept : {cores : ℕ} {s t : Pipe} → Steps cores s t → s.running ≤ s.bytes → t.running ≤ t.bytes
all_kept (done s) h = h
all_kept (next a r) h = all_kept r (enough_kept a h)

-- From the first signal on, with at most one worker for each processor, the pipe holds a byte for
-- each worker that has not left its loop, whatever happens in whatever order: none waits for ever.
pub signal_handler-enough :
    (cores : ℕ) (s t : Pipe)
    → s.running ≤ cores
    → Steps cores (signal_handler cores s) t
    → t.running ≤ t.bytes
unfolding signal_handler
signal_handler-enough cores s t h r = all_kept r (omega arith)

-- Workers leave, and there is no other signal.
pub data Leaving : Pipe → Pipe → Type 0 where
  all_left : (s : Pipe) → s.running ≡ 0 → Leaving s s
  one_leaves :
      (s : Pipe) {t : Pipe} → 1 ≤ s.running → 1 ≤ s.bytes → Leaving (leave_loop s) t → Leaving s t

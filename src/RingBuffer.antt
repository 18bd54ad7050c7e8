-- ===== src/RingBuffer.antt =====
-- 14-module/main.c, a character device over a ring buffer that overwrites its oldest byte: the
-- file operations, the sysfs attribute and the set-up of the buffer. The laws are below.
--
-- An `int` field is its bit pattern (Common.Words), a byte is any number: bytes are only moved. The
-- answers of the kernel (a signal during the lock, a fault of a user copy, memory) are arguments.
-- The kernel cuts a transfer at MAX_RW_COUNT, below 2 ^ 31, so the loop counter `i` does not wrap.
pub mod Inv
pub mod Refine
pub mod Device
pub mod Log
pub mod Open
pub mod Life
mod Tests
use otus_c.Common.{ℕ, zero, suc, ◌+◌, ◌-◌, ◌%◌, ◌^◌, Bool, true, false, Option, none, some}
use otus_c.Common.{List, [], ◌∷◌, ◌++◌, ltb, ◌==◌, if◌then◌else◌}
use otus_c.Common.{get_or, set, to_int, size_of_int}

-- `ring_buffer`; `lock` is whether the mutex is held.
pub record RingBuffer : Type 0 where
  pub buffer : List ℕ
  pub size : ℕ
  pub head : ℕ
  pub tail : ℕ
  pub count : ℕ
  pub lock : Bool

pub data Errno : Type 0 where
  ebusy erestartsys efault einval enomem : Errno

-- What a call returns: a number, or the negative of an error code.
pub data Return : Type 0 where
  ret : ℕ → Return
  fail : Errno → Return

-- `(i + 1) % rb->size`: the sum is an `int`, the remainder a `size_t`, stored in an `int`.
pub next : ℕ → ℕ → ℕ
next size i = to_int (size_of_int (to_int (i + 1)) % size)

-- One round of `rb_read` behind the copy.
pub consume : RingBuffer → RingBuffer
unfolding next
consume rb = record rb { tail = next rb.size rb.tail; count = to_int (rb.count + (2 ^ 32 - 1)) }

-- One round of `rb_write` behind the copy.
pub put_byte : RingBuffer → ℕ → RingBuffer
unfolding next
put_byte rb k_byte =
    let rb' = record rb { buffer = set rb.buffer rb.head k_byte; head = next rb.size rb.head } in
    if ltb (size_of_int rb.count) rb.size
    then record rb' { count = to_int (rb.count + 1) }
    else record rb' { tail = next rb.size rb.tail }

-- What a loop leaves: the buffer, the bytes copied to the user, and whether a copy faulted.
pub record Loop : Type 0 where
  pub rb : RingBuffer
  pub sent : List ℕ
  pub faulted : Bool

-- `copy_to_user(user_buf + i, …)` fails where `fault i`.
pub read_loop : (ℕ → Bool) → ℕ → ℕ → RingBuffer → List ℕ → Loop
unfolding consume
read_loop fault zero i rb sent = record { rb = rb; sent = sent; faulted = false }
read_loop fault (suc left) i rb sent =
    let next_round =
      read_loop fault left (i + 1) (consume rb) (sent ++ (get_or rb.buffer rb.tail 0 ∷ [])) in
    if fault i then record { rb = rb; sent = sent; faulted = true } else next_round

-- `copy_from_user(&k_byte, user_buf + i, 1)` reads `user i`, or faults where it is `none`.
pub write_loop : (ℕ → Option ℕ) → ℕ → ℕ → RingBuffer → Loop
unfolding put_byte
write_loop user zero i rb = record { rb = rb; sent = []; faulted = false }
write_loop user (suc left) i rb = elim (user i) [
  | none ↦ record { rb = rb; sent = []; faulted = true }
  | some k_byte ↦ write_loop user left (i + 1) (put_byte rb k_byte)
]

-- A file operation returns with the buffer, the bytes given to the user, and the file position.
pub record Outcome : Type 0 where
  pub rb : RingBuffer
  pub sent : List ℕ
  pub offset : ℕ
  pub result : Return

-- `int to_read`, and the rounds of a loop `i < to_read`: none where it is negative.
pub to_read : ℕ → RingBuffer → ℕ
to_read count rb = to_int (if ltb count (size_of_int rb.count) then count else size_of_int rb.count)

pub rounds : ℕ → ℕ
rounds n = if ltb n (2 ^ 31) then n else 0

-- `interrupted`: a signal ended `mutex_lock_interruptible`.
pub rb_read : Bool → (ℕ → Bool) → RingBuffer → ℕ → ℕ → Outcome
unfolding read_loop to_read rounds
rb_read interrupted fault rb count offset =
    if interrupted
    then record { rb = rb; sent = []; offset = offset; result = fail erestartsys }
    else (let n = to_read count rb in
        let l = read_loop fault (rounds n) 0 (record rb { lock = true }) [] in
        let rb' = record (l.rb) { lock = false } in
        if l.faulted
        then record { rb = rb'; sent = l.sent; offset = offset; result = fail efault }
        else record {
          rb = rb';
          sent = l.sent;
          offset = (offset + size_of_int n) % 2 ^ 64;
          result = ret (size_of_int n);
        })

pub rb_write : Bool → (ℕ → Option ℕ) → RingBuffer → ℕ → ℕ → Outcome
unfolding write_loop
rb_write interrupted user rb count offset =
    if interrupted
    then record { rb = rb; sent = []; offset = offset; result = fail erestartsys }
    else (let l = write_loop user count 0 (record rb { lock = true }) in
        let rb' = record (l.rb) { lock = false } in
        if l.faulted
        then record { rb = rb'; sent = []; offset = offset; result = fail efault }
        else record { rb = rb'; sent = []; offset = (offset + count) % 2 ^ 64; result = ret count })

-- `wipe` stands for IOCTL_WIPE_RB, which a kernel macro computes.
pub rb_ioctl : ℕ → Bool → RingBuffer → ℕ → RingBuffer × Return
rb_ioctl wipe interrupted rb cmd =
    if cmd == wipe
    then if interrupted
      then (rb, fail erestartsys)
      else (record rb { head = 0; tail = 0; count = 0; lock = false }, ret 0)
    else (rb, fail einval)

-- `kmalloc`, and `kzalloc`, which also clears the memory: the bytes of a new block, if there is one.
abbrev pub Alloc : Type 0
Alloc = ℕ → Option (List ℕ)

-- `init_rb`. Its first allocation, of the structure, is not checked: without it a null pointer is
-- written through.
pub data Init : Type 0 where
  ready : RingBuffer → Init
  no_memory null_dereference : Init

pub init_rb : Bool → Alloc → ℕ → Init
init_rb has_struct kmalloc size =
    if has_struct
    then elim (kmalloc size) [
      | none ↦ no_memory
      | some b ↦
          ready (record { buffer = b; size = size; head = 0; tail = 0; count = 0; lock = false })
    ]
    else null_dereference

pub buffer_size_show : RingBuffer → ℕ
buffer_size_show rb = rb.size

-- `parsed` is what `kstrtoul` makes of the text, and `count` the length of the text.
pub buffer_size_store : Bool → Alloc → Option ℕ → RingBuffer → ℕ → RingBuffer × Return
buffer_size_store interrupted kzalloc parsed rb count = elim parsed [
  | none ↦ (rb, fail einval)
  | some new_size ↦
      if ltb new_size 1
      then (rb, fail einval)
      else if interrupted
      then (rb, fail erestartsys)
      else elim (kzalloc new_size) [
        | none ↦ (record rb { lock = false }, fail enomem)
        | some new_buf ↦ (
          record { buffer = new_buf; size = new_size; head = 0; tail = 0; count = 0; lock = false },
          ret count,
        )
      ]
]

-- `rb_open` and `rb_release` over `device_mutex`: whether it is held, and what the call returns.
pub rb_open : Bool → Bool × Return
rb_open true = (true, fail ebusy)
rb_open false = (true, ret 0)

pub rb_release : Bool → Bool × Return
rb_release held = (false, ret 0)

-- The calls that reach the device, with the kernel's answers: `fops` and the attribute's `store`.
pub data Request : Type 0 where
  read : Bool → (ℕ → Bool) → ℕ → ℕ → Request
  write : Bool → (ℕ → Option ℕ) → ℕ → ℕ → Request
  ioctl : Bool → ℕ → Request
  resize : Bool → Option ℕ → ℕ → Request

-- What a caller sees: the bytes that it was given, and the result.
abbrev pub Reply : Type 0
Reply = List ℕ × Return

module _ (kzalloc : Alloc) (wipe : ℕ) where
  pub serve : RingBuffer → Request → RingBuffer × Reply
  serve rb (read i fault count offset) =
      let o = rb_read i fault rb count offset in (o.rb, (o.sent, o.result))
  serve rb (write i user count offset) =
      let o = rb_write i user rb count offset in (o.rb, (o.sent, o.result))
  serve rb (ioctl i cmd) = let (rb', r) = rb_ioctl wipe i rb cmd in (rb', ([], r))
  serve rb (resize i parsed count) =
      let (rb', r) = buffer_size_store i kzalloc parsed rb count in (rb', ([], r))

  pub run : RingBuffer → List Request → List Reply
  run rb [] = []
  run rb (q ∷ qs) = let (rb', r) = serve rb q in r ∷ run rb' qs

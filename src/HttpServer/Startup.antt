-- ===== src/HttpServer/Startup.antt =====
-- `main` and `signal_handler` of 12-server/main.c: the arguments, the workers, and their end by a
-- byte for each in the pipe.
use otus_c.Common.{ℕ, zero, suc, ◌+◌, ◌-◌, ◌%◌, ◌^◌, ◌≤◌, ◌<◌, ◌≡◌, refl, sym, ap, ◌∙◌}
use otus_c.Common.{Bool, true, not, Option, none, some, List, [], ◌∷◌, ◌++◌, arith}
use otus_c.Common.{ltb, leb, ltb→lt, lt→ltb, ◌==◌, if◌then◌else◌, Bool-cases, inl, inr, length}
use otus_c.Common.{Text, is_digit, digits_value, drop, append_assoc, append-nil}
use otus_c.HttpServer.{skip_spaces, scan_until}

-- `%u`: the value of `strtoul`, which stops at the largest value of 64 bits, cut to 32 bits.
pub scan_digits : Text → Option ℕ
scan_digits [] = none
scan_digits (c ∷ cs) = if is_digit c then some (digits_value 0 (c ∷ cs)) else none

abbrev pub to_unsigned : Bool → ℕ → ℕ
to_unsigned negative v =
    if leb (2 ^ 64) v then 2 ^ 32 - 1 else if negative then (2 ^ 64 - v) % 2 ^ 32 else v % 2 ^ 32

pub scan_sign : Text → Option ℕ
unfolding scan_digits
scan_sign [] = none
scan_sign (c ∷ cs) =
    let negative = c == b'-' in
    elim (scan_digits (if negative then cs else if c == b'+' then cs else c ∷ cs)) [
      | none ↦ none
      | some v ↦ some (to_unsigned negative v)
    ]

-- `sscanf(argv[1], "%63[^:]:%u", ip_addr, &port)`, where it gives 2.
abbrev pub host : Text → Text
host t = scan_until b':' 63 t

unfoldable pub scan_address : Text → Option (Text × ℕ)
unfolding scan_sign
scan_address t = if length (host t) == 0 then none else elim (drop (length (host t)) t) [
  | [] ↦ none
  | c ∷ cs ↦
      if c == b':'
      then elim (scan_sign (skip_spaces cs)) [ none ↦ none | some port ↦ some (host t, port) ]
      else none
]

-- `struct worker_data`
pub record WorkerData : Type 0 where
  pub id : ℕ
  pub dir : Text
  pub ip_addr : Text
  pub port : ℕ

-- The program fails, writes beyond an array, or joins the workers that it has started.
pub data Start : Type 0 where
  failure overflow : Start
  started : List WorkerData → Start

-- The loop from worker `i` on, of which `left` are left; `data` has 8 elements.
pub start_workers : (ℕ → Bool) → Text → Text → ℕ → ℕ → ℕ → List WorkerData → Start
start_workers creates ip_addr dir port zero i data' = started data'
start_workers creates ip_addr dir port (suc left) i data' =
    let rest =
      start_workers creates ip_addr dir port left (i + 1)
        (data' ++ (record { id = i; dir = dir; ip_addr = ip_addr; port = port } ∷ [])) in
    if not (ltb i 8) then overflow else if creates i then rest else failure

-- What the system answers: the number of processors, whether there is a pipe, and which threads can
-- be created.
pub record System : Type 0 where
  pub cores : Option ℕ
  pub pipes : Bool
  pub creates : ℕ → Bool

-- `args` are the arguments behind the program's name. The address is written into 63 bytes.
pub main : System → List Text → Start
unfolding scan_address start_workers
main k (address ∷ dir ∷ []) =
    if not (ltb (length (host address)) 63) then overflow else elim (scan_address address) [
      | none ↦ failure
      | some (ip_addr, port) ↦ if ltb 65535 port then failure else elim k.cores [
        | none ↦ failure
        | some cores ↦
            if k.pipes then start_workers k.creates ip_addr dir port cores 0 [] else failure
      ]
    ]
main k _ = failure

-- The data of the workers from `i` on.
abbrev pub workers_from : Text → Text → ℕ → ℕ → ℕ → List WorkerData
workers_from ip_addr dir port i zero = []
workers_from ip_addr dir port i (suc n) =
    record { id = i; dir = dir; ip_addr = ip_addr; port = port }
    ∷ workers_from ip_addr dir port (i + 1) n

start_workers_lem :
    (creates : ℕ → Bool) (ip_addr dir : Text) (port left i : ℕ) (ds : List WorkerData)
    → ((j : ℕ) → j < i + left → creates j ≡ true)
    → i + left ≤ 8
    → start_workers creates ip_addr dir port left i ds
      ≡ started (ds ++ workers_from ip_addr dir port i left)
unfolding start_workers
start_workers_lem creates ip_addr dir port zero i ds c h = ap started (sym (append-nil ds))
start_workers_lem creates ip_addr dir port (suc left) i ds c h =
    let d : WorkerData = record { id = i; dir = dir; ip_addr = ip_addr; port = port } in
    let later =
      start_workers_lem creates ip_addr dir port left (i + 1) (ds ++ (d ∷ []))
        (λ j l. c j (omega arith)) (omega arith) in
    rw (lt→ltb i 8 (omega arith), c i (omega arith))
      (later ∙ ap started (append_assoc ds (d ∷ []) (workers_from ip_addr dir port (i + 1) left)))

-- With an address that is read, whose host has at most 62 characters and whose port at most 16 bits,
-- with a pipe, at most 8 processors, and every thread created, there is one worker for each
-- processor: they are numbered in order and share the address, the port and the directory.
pub main-started :
    (k : System) (address dir ip_addr : Text) (port n : ℕ)
    → scan_address address ≡ some (ip_addr, port)
    → length (host address) < 63
    → port ≤ 65535
    → k.cores ≡ some n
    → n ≤ 8
    → k.pipes ≡ true
    → ((i : ℕ) → i < n → k.creates i ≡ true)
    → main k (address ∷ dir ∷ []) ≡ started (workers_from ip_addr dir port 0 n)
unfolding main
main-started k address dir ip_addr port n a l p c m q w =
    let r =
      start_workers_lem k.creates ip_addr dir port n 0 [] (λ j h. w j (omega arith))
        (omega arith) in
    elim (Bool-cases (ltb 65535 port)) [
      | inl t ↦ absurd (omega (arith, ltb→lt 65535 port t))
      | inr f ↦ rw (lt→ltb (length (host address)) 63 l, a, f, c, q) r
    ]

start_workers-overflow :
    (creates : ℕ → Bool) (ip_addr dir : Text) (port left i : ℕ) (ds : List WorkerData)
    → ((j : ℕ) → j < 8 → creates j ≡ true)
    → i ≤ 8
    → 8 < i + left
    → start_workers creates ip_addr dir port left i ds ≡ overflow
unfolding start_workers
start_workers-overflow creates ip_addr dir port zero i ds c h l = absurd (omega arith)
start_workers-overflow creates ip_addr dir port (suc left) i ds c h l =
    let d : WorkerData = record { id = i; dir = dir; ip_addr = ip_addr; port = port } in
    elim (Bool-cases (ltb i 8)) [
      | inr f ↦ ground (arith, f)
      | inl t ↦
          let lt = ltb→lt i 8 t in
          rw (t, c i lt)
            (start_workers-overflow creates ip_addr dir port left (i + 1) (ds ++ (d ∷ [])) c
              (omega arith) (omega arith))
    ]

-- On a machine with more than 8 processors the data of the ninth worker is written beyond its
-- array, for every address that is read, with a pipe, where the first 8 threads are created.
pub main-overflow :
    (k : System) (address dir ip_addr : Text) (port n : ℕ)
    → scan_address address ≡ some (ip_addr, port)
    → port ≤ 65535
    → k.cores ≡ some n
    → 8 < n
    → k.pipes ≡ true
    → ((i : ℕ) → i < 8 → k.creates i ≡ true)
    → main k (address ∷ dir ∷ []) ≡ overflow
unfolding main
main-overflow k address dir ip_addr port n a p c m q w =
    let r =
      start_workers-overflow k.creates ip_addr dir port n 0 [] w (omega arith) (omega arith) in
    elim (Bool-cases (ltb (length (host address)) 63)) [
      | inr l ↦ rw (l) refl
      | inl l ↦ elim (Bool-cases (ltb 65535 port)) [
        | inl t ↦ absurd (omega (arith, ltb→lt 65535 port t))
        | inr f ↦ rw (l, a, f, c, q) r
      ]
    ]

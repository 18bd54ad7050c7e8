-- ===== src/Logger/Program.antt =====
-- The life of the logger of 7-logger/logger/logger.c, and the program 7-logger/main.c.
use otus_c.Common.{ℕ, ◌≡◌, Bool, true, false, not, Option, none, some, List, [], ◌∷◌, if◌then◌else◌}
use otus_c.Common.{Text, text, arith}
use otus_c.Logger.{Level, info, debug, err, Call, Logged, log_call}

-- The static variable of `create_logger`: whether its mutex is made, and the path of its open file.
pub record Static : Type 0 where
  pub mutex : Bool
  pub f_ptr : Option Text

abbrev pub unused : Static
unused = record { mutex = false; f_ptr = none }

-- `create_logger`: what becomes of the variable, and whether its address is returned.
pub create_logger : Bool → Bool → Text → Static → Static × Bool
create_logger mutex_init opens path logger =
    let dst_path : Text = elim path [ [] ↦ text "/tmp/logger.log" | c ∷ rest ↦ c ∷ rest ] in
    if not mutex_init
    then (logger, false)
    else if opens
    then (record { mutex = true; f_ptr = some dst_path }, true)
    else (record { mutex = true; f_ptr = none }, false)

pub terminate_logger : Static → Static
terminate_logger logger = unused

-- The arguments of a call, with the answers of the system from `k`.
abbrev pub asked : Level → Text → ℕ → Call → Call
asked level str line k = record k { level = level; str = str; file = text "main.c"; line = line }

pub print_error : Text → Call → Logged
print_error msg k = log_call (asked err msg 5 k)

-- `main`: the exit code 0 or 1, what is logged, and the variable at the end.
pub main : Bool → Bool → Call → Call → Call → Bool × List Logged × Static
unfolding create_logger print_error terminate_logger
main mutex_init opens k1 k2 k3 =
    let created = create_logger mutex_init opens (text "/tmp/logger_test123.log") unused in
    if not created.1 then (false, [], created.0) else (
      true,
      log_call (asked info (text "test message") 14 k1)
          ∷ log_call (asked debug (text "debug message") 15 k2)
          ∷ print_error (text "error message") k3
          ∷ [],
      terminate_logger created.0,
    )

-- Where the mutex is made and the file opens, the program ends with 0 and leaves nothing of the logger.
main-created :
    (mutex_init opens : Bool) (k1 k2 k3 : Call)
    → mutex_init ≡ true
    → opens ≡ true
    → ((main mutex_init opens k1 k2 k3).0 ≡ true) × ((main mutex_init opens k1 k2 k3).2 ≡ unused)
unfolding main
main-created mutex_init opens k1 k2 k3 a b = (ground (arith, a, b), ground (arith, a, b))

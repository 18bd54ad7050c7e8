-- ===== src/Logger.antt =====
-- 7-logger/logger/logger.c: a log file that threads share.
--
-- What `ctime`, `malloc`, `fprintf` and `backtrace_symbols` answer is an argument. An `fprintf` that
-- fails writes nothing. The text of a time stamp that was never stored is freed where `ctime` or
-- `time` fails, and copied to NULL where `malloc` does: both are undefined in C.
pub mod Records
pub mod Program
mod Tests
use otus_c.Common.{ℕ, zero, suc, ◌+◌, Bool, true, false, Option, none, some, List, [], ◌∷◌, ◌++◌}
use otus_c.Common.{◌≡◌, ◌==◌, if◌then◌else◌, take, drop, Text, text, decimal}

pub data Level : Type 0 where
  debug info warn err : Level

abbrev pub level_name : Level → Text
level_name debug = text "debug"
level_name info = text "info"
level_name warn = text "warning"
level_name err = text "error"

-- A line without the newline at its end.
abbrev pub trim_newline : Text → Text
trim_newline [] = []
trim_newline (c ∷ []) = if c == b'\n' then [] else c ∷ []
trim_newline (c ∷ d ∷ ct) = c ∷ trim_newline (d ∷ ct)

pub data Stamp : Type 0 where
  no_time : Stamp
  null_write : Stamp
  stamp : Text → Stamp

-- `get_current_time`, for what `ctime` gives and whether there is memory.
pub get_current_time : Option Text → Bool → Stamp
get_current_time none memory = no_time
get_current_time (some ct) memory = if memory then stamp (trim_newline ct) else null_write

-- The frames of the stack, each with whether it is written, up to the first that is not.
pub frames_text : List (Text × Bool) → List Text × Bool
frames_text [] = ([], true)
frames_text ((frame, written) ∷ frames) =
    let rest = frames_text frames in
    if written then ((b' ' ∷ (frame ++ text "\n")) ∷ rest.0, rest.1) else ([], false)

-- `print_stack_trace`: what is written, and whether all was.
pub print_stack_trace : Option (List (Text × Bool)) → Bool → List Text × Bool
unfolding frames_text
print_stack_trace none title_written = ([], false)
print_stack_trace (some strings) title_written =
    let frames = frames_text (drop 2 (take 100 strings)) in
    if title_written then (text "stack trace:" ∷ frames.0, frames.1) else ([], false)

-- A call of a log function, with what the system answers.
pub record Call : Type 0 where
  pub level : Level
  pub str : Text
  pub file : Text
  pub line : ℕ
  pub ctime : Option Text
  pub memory : Bool
  pub written : Bool
  pub strings : Option (List (Text × Bool))
  pub title_written : Bool

abbrev pub record_text : Call → Text → Text
record_text c ts =
    text "{\"ts\": \""
    ++ (ts
        ++ (text "\", \"level\": \""
            ++ (level_name c.level
                ++ (text "\", \"pos\": \""
                    ++ (c.file
                        ++ (text ":"
                            ++ (decimal 10 c.line
                                ++ (text "\", \"msg\": \"" ++ (c.str ++ text "\"}\n")))))))))

-- The texts that are written between the locking and the unlocking of the mutex, and whether the
-- result is not negative; or undefined behaviour.
pub data Logged : Type 0 where
  undefined : Logged
  logged : List Text → Bool → Logged

-- `log_debug`, `log_info` and `log_warn`
pub log_record : Call → Logged
unfolding get_current_time
log_record c = elim (get_current_time c.ctime c.memory) [
  | no_time ↦ undefined
  | null_write ↦ undefined
  | stamp ts ↦ if c.written then logged (record_text c ts ∷ []) true else logged [] false
]

-- `log_err`
pub log_err : Call → Logged
unfolding get_current_time print_stack_trace
log_err c = elim (get_current_time c.ctime c.memory) [
  | no_time ↦ undefined
  | null_write ↦ undefined
  | stamp ts ↦
      if c.written
      then logged (record_text c ts ∷ (print_stack_trace c.strings c.title_written).0) true
      else logged [] false
]

unfoldable pub log_call : Call → Logged
unfolding log_record log_err
log_call c = elim c.level [
  | debug ↦ log_record c
  | info ↦ log_record c
  | warn ↦ log_record c
  | err ↦ log_err c
]

-- A thread outside the functions, or inside with what it has yet to write.
pub data Phase : Type 0 where
  outside : Phase
  inside : List Text → Phase

-- The file, the thread that holds the mutex, and the threads.
pub record State : Type 0 where
  pub file : Text
  pub owner : Option ℕ
  pub phase : ℕ → Phase

abbrev pub change : ℕ → Phase → (ℕ → Phase) → ℕ → Phase
change i x phase j = if j == i then x else phase j

pub data Step : State → State → Type 0 where
  lock :
      (s : State) (i : ℕ) (c : Call) (ts : List Text) (ok : Bool)
      → s.phase i ≡ outside
      → s.owner ≡ none
      → log_call c ≡ logged ts ok
      → Step s (record s { owner = some i; phase = change i (inside ts) s.phase })
  write :
      (s : State) (i : ℕ) (t : Text) (ts : List Text)
      → s.phase i ≡ inside (t ∷ ts)
      → Step s (record s { file = s.file ++ t; phase = change i (inside ts) s.phase })
  unlock :
      (s : State) (i : ℕ)
      → s.phase i ≡ inside []
      → Step s (record s { owner = none; phase = change i outside s.phase })

pub data Steps : State → State → Type 0 where
  done : (s : State) → Steps s s
  next : {s t u : State} → Step s t → Steps t u → Steps s u

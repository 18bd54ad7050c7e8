-- ===== src/Logger/Tests.antt =====
-- Two threads that log, one behind the other.
use otus_c.Common.{ℕ, ◌≡◌, ◌≢◌, refl, true, none, some, List, [], ◌∷◌}
use otus_c.Common.{◌++◌, Text, text, decimal}
use otus_c.Logger.{Level, debug, err, Call, log_call, logged, State, outside, inside, change, Steps}
use otus_c.Logger.{lock, write, unlock, done, next}
use otus_c.Logger.Records.{start, entered, join, Steps-file}

abbrev call : Level → Text → Call
call level str = record {
  level = level;
  str = str;
  file = text "main.c";
  line = 12;
  ctime = some (text "now\n");
  memory = true;
  written = true;
  strings = some ((text "a", true) ∷ (text "b", true) ∷ (text "main", true) ∷ []);
  title_written = true;
}

abbrev debug_texts : List Text
debug_texts =
    text "{\"ts\": \"now\", \"level\": \"debug\", \"pos\": \"main.c:12\", \"msg\": \"x\"}\n" ∷ []

abbrev err_texts : List Text
err_texts =
    text "{\"ts\": \"now\", \"level\": \"error\", \"pos\": \"main.c:12\", \"msg\": \"y\"}\n"
    ∷ text "stack trace:"
    ∷ text " main\n"
    ∷ []

debug_logged : log_call (call debug (text "x")) ≡ logged debug_texts true
unfolding log_call decimal
debug_logged = refl

err_logged : log_call (call err (text "y")) ≡ logged err_texts true
unfolding log_call decimal
err_logged = refl

abbrev entered_by : ℕ → List Text → State → State
entered_by i ts s = record s { owner = some i; phase = change i (inside ts) s.phase }

abbrev written_by : ℕ → Text → List Text → State → State
written_by i t ts s = record s { file = s.file ++ t; phase = change i (inside ts) s.phase }

abbrev left_by : ℕ → State → State
left_by i s = record s { owner = none; phase = change i outside s.phase }

abbrev begin : State
begin = start (text "")

abbrev in_first : State
in_first = entered_by 1 debug_texts begin

abbrev first_written : State
first_written = written_by 1 (join debug_texts) [] in_first

abbrev first_left : State
first_left = left_by 1 first_written

abbrev short : Call
short = record (call err (text "y")) { strings = none }

abbrev short_texts : List Text
short_texts =
    text "{\"ts\": \"now\", \"level\": \"error\", \"pos\": \"main.c:12\", \"msg\": \"y\"}\n" ∷ []

short_logged : log_call short ≡ logged short_texts true
unfolding log_call decimal
short_logged = refl

abbrev in_second : State
in_second = entered_by 0 short_texts first_left

abbrev second_written : State
second_written = written_by 0 (join short_texts) [] in_second

run : Steps begin (left_by 0 second_written)
run = next (lock begin 1 (call debug (text "x")) debug_texts true refl refl debug_logged) (
    next (write in_first 1 (join debug_texts) [] refl) (
      next (unlock first_written 1 refl) (
        next (lock first_left 0 short short_texts true refl refl short_logged) (
          next (write in_second 0 (join short_texts) [] refl)
            (next (unlock second_written 0 refl) (done (left_by 0 second_written)))))))

Steps-file_example :
    (second_written.file ≡ text "" ++ entered run)
    × ((i : ℕ) (ts : List Text) → (left_by 0 second_written).phase i ≢ inside ts)
Steps-file_example = Steps-file (text "") (left_by 0 second_written) run refl

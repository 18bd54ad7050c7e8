-- ===== src/Weather/Tests.antt =====
-- A small answer for 2-weather/main.c, with a JSON library that knows one text.
use otus_c.Common.{ℕ, ◌≡◌, refl, arith, Bool, true, false, Option, none, some, List}
use otus_c.Common.{[], inr, ◌∷◌, ◌++◌, Text, text, str_eq, c_string, decimal, if◌then◌else◌}
use otus_c.Weather.{Json, Curl, Memory, null_read, report, receive, received, main, ended}
use otus_c.Weather.{print_current_weather_from_json}
use otus_c.Weather.Response.{taken, HasText, receive-HasText}
use otus_c.Weather.Hours.{any_lacks_time, all_text, print_current-hours}

-- Values of the answer: the answer, its days, a day, its hours, an hour with a time, one without.
data Value : Type 0 where
  answer days day hours hour hour_without name : Value

abbrev get : Value → Text → Option Value
get answer key = if str_eq key (text "weather") then some days else none
get day key = if str_eq key (text "hourly") then some hours else none
get hour key = if str_eq key (text "time") then some name else none
get _ key = none

abbrev elements : Bool → Value → Option (List (Option Value))
elements untimed days = some (some day ∷ [])
elements untimed hours = some (some hour ∷ (if untimed then some hour_without ∷ [] else []))
elements untimed _ = none

abbrev is_object : Value → Bool
is_object hour = true
is_object hour_without = true
is_object _ = false

abbrev json : Bool → Json Value
json untimed = record {
  parse = λ s. if str_eq s (text "{}") then some answer else none;
  get = get;
  elements = elements untimed;
  is_object = is_object;
  string = λ v. none;
  get_string = λ v. text "300";
}

abbrev three : Text → ℕ
three s = 300

abbrev parts : List (List ℕ × Bool)
parts = (text "{", true) ∷ (text "}", true) ∷ []

abbrev curl : Text → Curl
curl url = record {
  global_init = true;
  easy_init = true;
  parts = parts;
  performs = true;
  status_code = 200;
}

abbrev fresh : Memory
fresh = record { response = none; size = 0 }

receive-HasText_example :
    (mem : Memory) × (receive parts fresh ≡ received mem (taken parts).1)
    × HasText ([] ++ (taken parts).0) mem
receive-HasText_example =
    receive-HasText parts [] fresh (record { size = refl; bytes = inr (refl, refl) }) (omega arith)

print_current-hours_example : print_current_weather_from_json (json true) three (text "{}") ≡ (
    if any_lacks_time (json true) three (some hour ∷ some hour_without ∷ [])
    then null_read
    else report (all_text (json true) three (some hour ∷ some hour_without ∷ [])) true)
print_current-hours_example =
    print_current-hours (json true) three (text "{}") answer (some day) []
      (some hour ∷ some hour_without ∷ []) refl refl refl

prints : main (json false) three curl (text "Moscow" ∷ []) ≡ ended true (text "time: 3:00\n") false
unfolding main c_string decimal
prints = refl

-- The answer of a town that is not found is not freed.
keeps :
    main (json false) three (λ url. record (curl url) { status_code = 404 }) (text "Moscow" ∷ [])
    ≡ ended false (text "Location not found\n") true
unfolding main
keeps = refl

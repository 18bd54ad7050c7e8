-- ===== src/Weather.antt =====
-- 2-weather/main.c: the weather of today in a town, from a web service.
--
-- What libcurl answers is an argument, as is whether `realloc` has memory. The JSON library is the
-- record `Json`, a section parameter, and `atoi` another; a value of it that is NULL is `none`.
pub mod Response
pub mod Hours
mod Tests
use otus_c.Common.{add64}
use otus_c.Common.{
  ℕ, zero, suc, ◌+◌, ◌-◌, ◌/◌, ◌%◌, ◌^◌, Bool, true, false, not, Option, none, some, List, [],
}
use otus_c.Common.{
  ◌∷◌, ◌++◌, ltb, ◌==◌, if◌then◌else◌, length, take, Text, text, int_text, c_string,
}

-- `struct memory`: the bytes that were written to the block, if there is one, and `size`.
pub record Memory : Type 0 where
  pub response : Option (List ℕ)
  pub size : ℕ

-- A call of `cb` stores its bytes, or returns 0, or writes beyond its block.
pub data Stored : Type 0 where
  stores : Memory → Stored
  no_memory : Stored
  overflow : Stored

abbrev pub written : Option (List ℕ) → List ℕ
written none = []
written (some bytes) = bytes

-- `cb`, for `nmemb` bytes of data.
pub cb : List ℕ → ℕ → Bool → Memory → Stored
cb data_ size memory mem =
    let asked = add64 (add64 mem.size (length data_)) size in
    if not memory
    then no_memory
    else if ltb asked (mem.size + length data_ + 1)
    then overflow
    else stores (record {
      response = some (take mem.size (written mem.response) ++ (data_ ++ (0 ∷ [])));
      size = add64 mem.size (length data_);
    })

-- What libcurl does with `cb`: a call for each part of the body, of `size` 1, up to one that does
-- not take its part.
pub data Received : Type 0 where
  received : Memory → Bool → Received
  overflows : Received

pub receive : List (List ℕ × Bool) → Memory → Received
unfolding cb
receive [] mem = received mem true
receive ((data_, memory) ∷ parts) mem = elim (cb data_ 1 memory mem) [
  | stores mem' ↦ receive parts mem'
  | no_memory ↦ received mem false
  | overflow ↦ overflows
]

-- `get` is `json_object_object_get_ex`; `elements`, `is_object` and `string` tell the type, and
-- what an array or a string has; `get_string` is the text of a value of any type.
pub record Json (J : Type 0) : Type 0 where
  pub parse : Text → Option J
  pub get : J → Text → Option J
  pub elements : J → Option (List (Option J))
  pub is_object : J → Bool
  pub string : J → Option Text
  pub get_string : J → Text

-- `time / 100` of an `int`.
abbrev pub hundredth : ℕ → ℕ
hundredth time = if ltb time (2 ^ 31) then time / 100 else (2 ^ 32 - (2 ^ 32 - time) / 100) % 2 ^ 32

abbrev pub hour_text : ℕ → Text
hour_text time = if time == 0 then text "00:00\n" else int_text time ++ text ":00\n"

-- What is printed, and the exit code 0 or 1, or a read at NULL.
pub data Report : Type 0 where
  null_read : Report
  report : Text → Bool → Report

-- What libcurl answers: which set-ups succeed, the parts of the body, whether the transfer then
-- succeeds, and the response code.
pub record Curl : Type 0 where
  pub global_init : Bool
  pub easy_init : Bool
  pub parts : List (List ℕ × Bool)
  pub performs : Bool
  pub status_code : ℕ

-- The ends of `main`: undefined behaviour, or the exit code 0 or 1, with what was printed of the
-- answer and whether the memory of the answer was kept.
pub data End : Type 0 where
  undefined : End
  ended : Bool → Text → Bool → End

-- The answer's memory is freed behind the report.
abbrev pub end_of : Report → End
end_of null_read = undefined
end_of (report printed ok) = ended ok printed false

abbrev pub not_found : ℕ
not_found = 404

-- The url, cut to its array.
abbrev pub url_of : Text → Text
url_of cityname = take 99 (text "https://wttr.in/" ++ (cityname ++ text "?format=j1"))

abbrev pub is_kept : Memory → Bool
is_kept mem = elim mem.response [ none ↦ false | some bytes ↦ true ]

module _ {J : Type 0} (json : Json J) (atoi : Text → ℕ) where
  abbrev pub get_of : Option J → Text → Option J
  get_of none key = none
  get_of (some o) key = json.get o key

  abbrev pub elements_of : Option J → Option (List (Option J))
  elements_of none = none
  elements_of (some o) = json.elements o

  abbrev pub string_of : Option J → Option Text
  string_of none = none
  string_of (some o) = json.string o

  -- A line for a value that is a string.
  abbrev pub line : Text → Option J → Text → Text
  line label value unit = elim (string_of value) [
    | none ↦ []
    | some s ↦ label ++ (s ++ (unit ++ text "\n"))
  ]

  abbrev pub desc_text : Option (List (Option J)) → Text
  desc_text none = []
  desc_text (some []) = []
  desc_text (some (d ∷ ds)) = line (text "  weather description: ") (get_of d (text "value")) []

  -- What is printed for an hour behind its time.
  pub weather_text : J → Text
  weather_text hour =
      desc_text (elements_of (json.get hour (text "weatherDesc")))
      ++ (line (text "  temp: ") (json.get hour (text "tempC")) (32 ∷ 194 ∷ 176 ∷ text "C")
          ++ (line (text "  wind direction: ") (json.get hour (text "winddir16Point")) []
              ++ line (text "  wind speed: ") (json.get hour (text "windspeedKmph"))
                  (text " Kmph")))

  -- The loop over the hours; `none` is a read at NULL.
  pub print_hours : List (Option J) → Option Text
  unfolding weather_text
  print_hours [] = some []
  print_hours (none ∷ hours) = print_hours hours
  print_hours (some hour ∷ hours) =
      let rest = print_hours hours in
      if not (json.is_object hour) then rest else elim (json.get hour (text "time")) [
        | none ↦ none
        | some time ↦ elim rest [
          | none ↦ none
          | some later ↦ some (
              text "time: "
              ++ (hour_text (hundredth (atoi (json.get_string time)))
                  ++ (weather_text hour ++ later)))
        ]
      ]

  -- Today's weather: the hours.
  pub print_today : Option J → Report
  unfolding print_hours
  print_today today = elim (elements_of (get_of today (text "hourly"))) [
    | none ↦ report [] true
    | some hours ↦ elim (print_hours hours) [
      | none ↦ null_read
      | some printed ↦ report printed true
    ]
  ]

  pub print_current_weather_from_json : Text → Report
  unfolding print_today
  print_current_weather_from_json json_string = elim (json.parse json_string) [
    | none ↦ report (text "Error parsing JSON\n") false
    | some parsed_json ↦ elim (elements_of (json.get parsed_json (text "weather"))) [
      | none ↦ report [] true
      | some [] ↦ report (text "Could not find today's weather information in the output") false
      | some (today ∷ days) ↦ print_today today
    ]
  ]

  -- `get_weather` behind a transfer without an error.
  pub print_answer : ℕ → Memory → End
  unfolding print_current_weather_from_json
  print_answer status_code mem =
      if status_code == not_found
      then ended false (text "Location not found\n") (is_kept mem)
      else elim mem.response [
        | none ↦ undefined
        | some bytes ↦ end_of (print_current_weather_from_json (c_string bytes))
      ]

  -- `get_weather`: the transfer goes to the url that is given.
  pub get_weather : (Text → Curl) → Text → End
  unfolding receive print_answer
  get_weather curl cityname =
      let k = curl (url_of cityname) in
      if not k.easy_init
      then ended false [] false
      else elim (receive k.parts (record { response = none; size = 0 })) [
        | overflows ↦ undefined
        | received mem ok ↦
            if ok
            then (if k.performs
                then print_answer k.status_code mem
                else ended false [] (is_kept mem))
            else ended false [] (is_kept mem)
      ]

  -- `main`, with the arguments behind the name of the program.
  unfoldable pub main : (Text → Curl) → List Text → End
  unfolding get_weather
  main curl [] = ended false [] false
  main curl (cityname ∷ []) =
      if (curl (url_of cityname)).global_init
      then get_weather curl cityname
      else ended false [] false
  main curl (cityname ∷ (_ ∷ _)) = ended false [] false

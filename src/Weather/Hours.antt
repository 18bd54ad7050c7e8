-- ===== src/Weather/Hours.antt =====
-- What 2-weather/main.c prints of the answer.
use otus_c.Common.{ℕ, ◌+◌, ◌^◌, ◌<◌, ◌≡◌, refl, ap, ◌∙◌, arith}
use otus_c.Common.{Bool, true, false, ◌||◌, Option, none, some, List, [], ◌∷◌, ◌++◌, append_assoc}
use otus_c.Common.{◌==◌, if◌then◌else◌, Bool-cases, Option-cases, inl, inr, Text, text, c_string}
use otus_c.Weather.{
  Json, weather_text, hour_text, hundredth, print_hours, get_of, elements_of, Curl,
}
use otus_c.Weather.{print_current_weather_from_json, print_today, report, null_read, end_of}
use otus_c.Weather.{url_of, main, get_weather, print_answer, not_found}
use otus_c.Weather.Response.{taken, total, receive-all}

lacking {ℓ} : {A : Type ℓ} {b : Bool} {x : A} (y : A) → b ≡ true → (if b then x else y) ≡ x
lacking y e = rw (e) refl

having {ℓ} : {A : Type ℓ} {b : Bool} (x : A) {y : A} → b ≡ false → (if b then x else y) ≡ y
having x e = rw (e) refl

module _ {J : Type 0} (json : Json J) (atoi : Text → ℕ) where
  -- An hour that is an object without a time.
  abbrev pub lacks_time : Option J → Bool
  lacks_time none = false
  lacks_time (some hour) = elim (json.get hour (text "time")) [
    | none ↦ json.is_object hour
    | some time ↦ false
  ]

  abbrev pub any_lacks_time : List (Option J) → Bool
  any_lacks_time [] = false
  any_lacks_time (hour ∷ hours) = lacks_time hour || any_lacks_time hours

  -- The text of an hour: nothing, if it is no object.
  abbrev pub entry_text : Option J → Text
  entry_text none = []
  entry_text (some hour) = elim (json.get hour (text "time")) [
    | none ↦ []
    | some time ↦
        let entry =
          text "time: "
          ++ (hour_text (hundredth (atoi (json.get_string time))) ++ weather_text json atoi hour) in
        if json.is_object hour then entry else []
  ]

  abbrev pub all_text : List (Option J) → Text
  all_text [] = []
  all_text (hour ∷ hours) = entry_text hour ++ all_text hours

  print_hours-all_text :
      (hours : List (Option J))
      → print_hours json atoi hours ≡ (if any_lacks_time hours then none else some (all_text hours))
  unfolding print_hours
  print_hours-all_text [] = refl
  print_hours-all_text (none ∷ hours) = print_hours-all_text hours
  print_hours-all_text (some hour ∷ hours) =
      let rest = print_hours-all_text hours in
      elim (Option-cases (json.get hour (text "time"))) [
        | inl e ↦ elim (Bool-cases (json.is_object hour)) [
          | inl p ↦ ground (arith, e, p)
          | inr p ↦ ground (arith, e, p, rest)
        ]
        | inr (time, e) ↦ elim (Bool-cases (json.is_object hour)) [
          | inr p ↦ ground (arith, e, p, rest)
          | inl p ↦
              let h = hour_text (hundredth (atoi (json.get_string time))) in
              elim (Bool-cases (any_lacks_time hours)) [
                | inl q ↦ let r = rest ∙ lacking _ q in ground (arith, e, p, q, r)
                | inr q ↦
                    let r = rest ∙ having _ q in
                    let v = append_assoc h (weather_text json atoi hour) (all_text hours) in
                    ground (arith, e, p, q, r, v)
              ]
        ]
      ]

  -- An answer with a list of days, the first of which has a list of hours: all hours are printed,
  -- each with its time and what it has of the weather, if each that is an object has a time; if one
  -- has none, NULL is read.
  pub print_current-hours :
      (json_string : Text) (d : J) (today : Option J) (days hours : List (Option J))
      → json.parse json_string ≡ some d
      → elements_of json atoi (json.get d (text "weather")) ≡ some (today ∷ days)
      → elements_of json atoi (get_of json atoi today (text "hourly")) ≡ some hours
      → print_current_weather_from_json json atoi json_string
        ≡ (if any_lacks_time hours then null_read else report (all_text hours) true)
  unfolding print_current_weather_from_json print_today
  print_current-hours json_string d today days hours a b c =
      let rest = print_hours-all_text hours in
      elim (Bool-cases (any_lacks_time hours)) [
        | inl p ↦
            let r = rest ∙ lacking _ p in
            rw (print_current_weather_from_json, a, b, print_today, c, r, p) refl
        | inr p ↦
            let r = rest ∙ having _ p in
            rw (print_current_weather_from_json, a, b, print_today, c, r, p) refl
      ]

c_string-zero : (t : List ℕ) → c_string (t ++ (0 ∷ [])) ≡ c_string t
unfolding c_string
c_string-zero [] = refl
c_string-zero (c ∷ t) = elim (Bool-cases (c == 0)) [
  | inl p ↦ rw (p) refl
  | inr p ↦ rw (p) (ap (λ l. c ∷ l) (c_string-zero t))
]

module _ {J : Type 0} (json : Json J) (atoi : Text → ℕ) where
  -- Where no call fails and there is a body with another code than 404: `main` prints what is made of
  -- the whole body, up to its first zero, and keeps no memory.
  pub main-prints :
      (curl : Text → Curl) (cityname : Text) (part : List ℕ × Bool) (parts : List (List ℕ × Bool))
      → (curl (url_of cityname)).global_init ≡ true
      → (curl (url_of cityname)).easy_init ≡ true
      → (curl (url_of cityname)).parts ≡ part ∷ parts
      → (taken (part ∷ parts)).1 ≡ true
      → total (part ∷ parts) + 1 < 2 ^ 64
      → (curl (url_of cityname)).performs ≡ true
      → ((curl (url_of cityname)).status_code == not_found) ≡ false
      → main json atoi curl (cityname ∷ [])
        ≡ end_of (print_current_weather_from_json json atoi (c_string (taken (part ∷ parts)).0))
  unfolding main get_weather print_answer
  main-prints curl cityname part parts a b c d l e f =
      let k = curl (url_of cityname) in
      let (mem, r, h) = receive-all part parts d l in
      let body = (taken (part ∷ parts)).0 in
      let z = c_string-zero body in
      let shown : print_answer json atoi k.status_code mem
          ≡ end_of (print_current_weather_from_json json atoi (c_string body)) =
        rw (print_answer, f, h, z) refl in
      rw (main, a, get_weather, b, c, r, e) shown

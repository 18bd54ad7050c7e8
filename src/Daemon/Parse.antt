-- ===== src/Daemon/Parse.antt =====
-- What the event loop of 8-daemon/main.c makes of a configuration.
use otus_c.Common.{◌≡◌, refl, true, false, Option, none, some, List, [], ◌∷◌}
use otus_c.Common.{Text, str_eq, str_eq→≡, if◌then◌else◌, arith, Bool-cases, inl, inr, ◌&&◌}
use otus_c.Daemon.{Config, expect_key}
use otus_c.Daemon.{Event, mapping_start, scalar, other, socket_key, file_key}
use otus_c.Daemon.{parse_events, Input, parse_config}

-- The scalars of a mapping with these keys and values, and the ends of the mapping and the document.
abbrev pub pair_events : List (Text × Text) → List Event
pair_events [] = other ∷ other ∷ []
pair_events ((k, v) ∷ kvs) = scalar k ∷ scalar v ∷ pair_events kvs

-- The value that stands last under a key.
abbrev pub last_value : Text → List (Text × Text) → Option Text
last_value key [] = none
last_value key ((k, v) ∷ kvs) = elim (last_value key kvs) [
  | some w ↦ some w
  | none ↦ if str_eq k key then some v else none
]

abbrev pub or_else : Option Text → Option Text → Option Text
or_else (some v) d = some v
or_else none d = d

abbrev pub both : Option Text → Option Text → Option (Text × Text)
both (some a) (some b) = some (a, b)
both (some a) none = none
both none b = none

-- `str_eq k file_key` and `str_eq k socket_key` do not both hold.
keys_differ : (k : Text) → str_eq k file_key ≡ true → str_eq k socket_key ≡ false
keys_differ k h = rw (str_eq→≡ k file_key h)

parse_pairs :
    (kvs : List (Text × Text)) (c : Config)
    → parse_events (pair_events kvs) expect_key c ≡ (
      expect_key,
      record {
        socket_path = or_else (last_value socket_key kvs) c.socket_path;
        file_path = or_else (last_value file_key kvs) c.file_path;
      },
    )
unfolding parse_events
parse_pairs [] c = refl
parse_pairs ((k, v) ∷ kvs) c = elim (Bool-cases (str_eq k file_key)) [
  | inl f ↦ ground (arith, f, keys_differ k f, parse_pairs kvs (record c { file_path = some v }))
  | inr nf ↦ elim (Bool-cases (str_eq k socket_key)) [
    | inl s ↦ ground (arith, nf, s, parse_pairs kvs (record c { socket_path = some v }))
    | inr ns ↦ ground (arith, nf, ns, parse_pairs kvs c)
  ]
]

-- A configuration that is one mapping of keys to texts: behind the starts of the stream, the
-- document and the mapping. The end of the stream ends the loop.
abbrev pub mapping : Config → List (Text × Text) → Input
mapping fresh kvs = record {
  opens = true;
  starts = true;
  fresh = fresh;
  events = other ∷ other ∷ mapping_start ∷ pair_events kvs;
  ends = true;
}

-- A file that is one mapping of keys to texts, in any order and with any other keys, gives the
-- values that stand last under `socketPath` and `filePath`; for a key that is missing it gives what
-- the memory of the new structure happened to hold, and is refused only where that is null.
pub parse_config-mapping :
    (fresh : Config) (kvs : List (Text × Text))
    → parse_config (mapping fresh kvs)
      ≡ both
          (or_else (last_value socket_key kvs) fresh.socket_path)
          (or_else (last_value file_key kvs) fresh.file_path)
unfolding parse_config
parse_config-mapping fresh kvs = ground (arith, parse_pairs kvs fresh)

-- A file that cannot be opened or read to its end is refused.
pub parse_config_refuses :
    (i : Input) → (i.opens && i.starts && i.ends) ≡ false → parse_config i ≡ none
unfolding parse_config
parse_config_refuses i h = ground arith

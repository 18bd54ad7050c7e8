-- ===== src/Daemon/Tests.antt =====
-- The daemon of 8-daemon/main.c on small inputs, and its theorems there.
use otus_c.Common.{decimal, ◌≡◌, refl, true, false, none, some, List, [], ◌∷◌, inl, inr}
use otus_c.Common.{Text, text}
use otus_c.Daemon.{Client, Config, parse_config, Sockets, main, child, serving}
use otus_c.Daemon.{get_file_size, socket_key, file_key}
use otus_c.Daemon.Parse.{mapping, last_value, or_else, both, parse_config-mapping}

abbrev nulls : Config
nulls = record { socket_path = none; file_path = none }

abbrev settings : List (Text × Text)
settings =
    (text "filePath", text "/etc/passwd")
    ∷ (text "mode", text "socketPath")
    ∷ (text "socketPath", text "/tmp/sock")
    ∷ []

abbrev sockets : Sockets
sockets = record { unlinks = false; absent = true; creates = true; binds = true; listens = some 0 }

abbrev one : List Client
one = record { accepted = true; stat = inl 2048; written = some 47 } ∷ []

serves :
    main child (mapping nulls settings) sockets one (text "-d" ∷ [])
    ≡ serving (text "the size of the /etc/passwd file is 2048 bytes\n" ∷ [])
unfolding main get_file_size decimal
serves = refl

-- Without a socket path the memory of the new structure decides.
missing_key :
    (parse_config (mapping nulls ((text "filePath", text "f") ∷ [])) ≡ none)
    × (parse_config (
          mapping
            (record nulls { socket_path = some (text "garbage") })
            ((text "filePath", text "f") ∷ []))
        ≡ some (text "garbage", text "f"))
unfolding parse_config
missing_key = (refl, refl)

parse_config-mapping_example :
    parse_config (mapping nulls settings)
    ≡ both
        (or_else (last_value socket_key settings) none)
        (or_else (last_value file_key settings) none)
parse_config-mapping_example = parse_config-mapping nulls settings

-- The size is told, the second client is gone before it gets its response, and the third gets a part
-- of that for an error.
abbrev clients : List Client
clients =
    record { accepted = true; stat = inl 1; written = some 38 }
    ∷ record { accepted = true; stat = inl 1; written = none }
    ∷ record { accepted = true; stat = inr (text "gone"); written = some 10 }
    ∷ []

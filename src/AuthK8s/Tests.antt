-- ===== src/AuthK8s/Tests.antt =====
-- The hook of project/auth_k8s.c on a small cluster, and its theorems there.
use otus_c.Common.{◌≡◌, refl, true, none, some, [], ◌∷◌, arith}
use otus_c.Common.{text, str_eq, if◌then◌else◌}
use otus_c.AuthK8s.{Aton, CidrConfig, parse_cidr, Pod, PodList, listed, no_list}
use otus_c.AuthK8s.{Environment, empty_cache, returned, fatal, no_annotation, rbac_error}
use otus_c.AuthK8s.{outside_cidr, auth_k8s_hook, is_ip_in_cidr}
use otus_c.AuthK8s.Cidr.{IsAddress, Describes, parse_cidr-Describes}
use otus_c.AuthK8s.Decision.{Admitted, hook-Admitted}
use otus_c.AuthK8s.Chain.{Hook, auth_k8s, hooks_called, Hooks, another, pg_init, pg_init-Admitted}
use otus_c.Common.{◌↔◌, List}

-- Three addresses are enough here.
abbrev aton : Aton
aton t =
    if str_eq t (text "10.1.0.0")
    then some 0x0A010000
    else if str_eq t (text "10.1.2.3")
    then some 0x0A010203
    else if str_eq t (text "10.2.0.1")
    then some 0x0A020001
    else none

aton-IsAddress : IsAddress aton
aton-IsAddress t a e = ground arith

abbrev env : Environment
env = record { inst = some (text "db1"); cidr = some (text "10.1.0.0/16"); incluster = true }

abbrev allowed : Pod
allowed = record {
  pod_ip = some (text "10.1.2.3");
  metadata = some (record {
    name = some (text "app");
    annotations = some (
        record {
          key = some (text "otus.project.postgres.instance/db1");
          value = some (text "true");
        }
        ∷ []);
  });
}

abbrev config : CidrConfig
config = record { network = 0x0000010A; mask = 0x0000FFFF; valid = true }

abbrev pods : PodList
pods = listed (some (allowed ∷ []))

parses : parse_cidr aton (text "10.1.0.0/16") ≡ some (text "10.1.0.0", config)
unfolding parse_cidr
parses = refl

lets_in : (auth_k8s_hook aton env empty_cache (some (text "10.1.2.3")) pods).0 ≡ returned true
unfolding auth_k8s_hook
lets_in = refl

keeps_out :
    ((auth_k8s_hook aton env empty_cache (some (text "10.2.0.1")) pods).0 ≡ fatal outside_cidr)
    × ((auth_k8s_hook aton env empty_cache (some (text "10.1.2.3")) (listed (some []))).0
        ≡ fatal no_annotation)
    × ((auth_k8s_hook aton env empty_cache (some (text "10.1.2.3")) (no_list 403)).0
        ≡ fatal rbac_error)
unfolding auth_k8s_hook
keeps_out = (refl, refl, refl)

parse_cidr-Describes_example : Describes aton (text "10.1.0.0/16") (text "10.1.0.0") config
parse_cidr-Describes_example =
    parse_cidr-Describes aton (text "10.1.0.0/16") (text "10.1.0.0") config aton-IsAddress parses

hook-Admitted_example : Admitted aton env (text "10.1.2.3") pods
hook-Admitted_example = hook-Admitted aton aton-IsAddress env b'1' (text "0.1.2.3") pods lets_in

abbrev before : Hooks
before = record { client_authentication_hook = some (another 3); prev_client_auth_hook = none }

pg_init-Admitted_example :
    let v = (auth_k8s_hook aton env empty_cache (some (text "10.1.2.3")) pods).0 in
    ((v ≡ returned true) ↔ Admitted aton env (text "10.1.2.3") pods)
    × ((rest : List Hook) × (hooks_called (pg_init before) v ≡ auth_k8s ∷ rest)
        × ((rest ≡ another 3 ∷ []) ↔ (
            (before.client_authentication_hook ≡ some (another 3))
            × Admitted aton env (text "10.1.2.3") pods)))
pg_init-Admitted_example =
    pg_init-Admitted aton env before b'1' (text "0.1.2.3") pods (another 3) aton-IsAddress

in_network : is_ip_in_cidr aton (text "10.1.2.3") config ≡ true
unfolding is_ip_in_cidr
in_network = refl

-- ===== src/AuthK8s/Decision.antt =====
-- Who is let in by the hook of project/auth_k8s.c, from the environment of its first call on.
use otus_c.Common.{ℕ, ◌-◌, ◌/◌, ◌^◌, ◌≡◌, ◌↔◌, refl, sym, ap, ◌∙◌}
use otus_c.Common.{Bool, true, false, Option, none, some, Option-cases, inl, inr, arith}
use otus_c.Common.{List, ◌∷◌, Text}
use otus_c.AuthK8s.{
  Aton, CidrConfig, is_ip_in_cidr, parse_cidr, KeyValuePair, Metadata, Pod, PodList,
}
use otus_c.AuthK8s.{listed, target_key}
use otus_c.AuthK8s.{empty_cache, Environment, fill_cache, returned, check_pods}
use otus_c.AuthK8s.{cidr_of, decide, auth_k8s_hook, calls_next}
use otus_c.AuthK8s.Cidr.{valid-parse_cidr, IsAddress, Describes, parse_cidr-Describes}
use otus_c.AuthK8s.Search.{First, HasIp, find_pod-First, First-find_pod, Annotated}
use otus_c.AuthK8s.Search.{find_annotation-Annotated, First-find_annotation}
use otus_c.AuthK8s.Checks.{
  check_pods-PodsPassed, decide-CachePassed, decide-check_pods, check_pods-returned,
}

-- What lets a remote host in: the environment names an instance and a network, the client is there,
-- the host's address is in the network, and the first pod with that address is annotated.
pub record Admitted (inet_aton : Aton) (env : Environment) (host : Text) (list : PodList)
    : Type 0 where
  pub id : Text
  pub setting : Text
  pub addr : Text
  pub config : CidrConfig
  pub has_id : env.inst ≡ some id
  pub has_setting : env.cidr ≡ some setting
  pub has_config : parse_cidr inet_aton setting ≡ some (addr, config)
  pub network : Describes inet_aton setting addr config
  pub client : env.incluster ≡ true
  pub address : ℕ
  pub has_address : inet_aton host ≡ some address
  pub inside : address / 2 ^ (32 - network.bits) ≡ network.network / 2 ^ (32 - network.bits)
  pub pods : List Pod
  pub has_pods : list ≡ listed (some pods)
  pub pod : Pod
  pub first_pod : First (HasIp host) pods pod
  pub metadata : Metadata
  pub has_metadata : pod.metadata ≡ some metadata
  pub annotations : List KeyValuePair
  pub has_annotations : metadata.annotations ≡ some annotations
  pub annotated : Annotated (target_key id) annotations

module _ (inet_aton : Aton) (sound : IsAddress inet_aton) (env : Environment) where
  -- A remote host that the first call of the hook authorizes is admitted: the environment names the
  -- instance and a network that the host's address is in, and the first pod with that address has
  -- annotations of which the first with the instance's key says "true". `inet_aton` is taken to
  -- give 32-bit addresses.
  pub hook-Admitted :
      (h : ℕ) (hs : Text) (list : PodList)
      → (auth_k8s_hook inet_aton env empty_cache (some (h ∷ hs)) list).0 ≡ returned true
      → Admitted inet_aton env (h ∷ hs) list
  unfolding auth_k8s_hook fill_cache
  hook-Admitted h hs list e =
      let c = decide-CachePassed inet_aton (fill_cache inet_aton env empty_cache) h hs list e in
      let p = check_pods-PodsPassed c.id (h ∷ hs) list c.pods in
      elim (Option-cases env.cidr) [
        | inl no_setting ↦ cc (c.has_cidr, ap (cidr_of inet_aton) no_setting)
        | inr (setting, f) ↦
            let parsed : parse_cidr inet_aton setting ≡ some (c.addr, c.config) =
              sym (ap (cidr_of inet_aton) f) ∙ c.has_cidr in
            let d = parse_cidr-Describes inet_aton setting c.addr c.config sound parsed in
            elim (Option-cases (inet_aton (h ∷ hs))) [
              | inl no_address ↦ cc (c.inside, d.outside (h ∷ hs) no_address)
              | inr (a, g) ↦ record {
                id = c.id;
                setting = setting;
                addr = c.addr;
                config = c.config;
                has_id = c.has_id;
                has_setting = f;
                has_config = parsed;
                network = d;
                client = c.client;
                address = a;
                has_address = g;
                inside = (d.inside (h ∷ hs) a g).0 c.inside;
                pods = p.pods;
                has_pods = p.has_pods;
                pod = p.pod;
                first_pod = find_pod-First (h ∷ hs) p.pods p.pod p.found;
                metadata = p.metadata;
                has_metadata = p.has_metadata;
                annotations = p.annotations;
                has_annotations = p.has_annotations;
                annotated = find_annotation-Annotated (target_key c.id) p.annotations p.annotated;
              }
            ]
      ]

  -- And every admitted host is authorized by the first call of the hook.
  pub Admitted-hook :
      (h : ℕ) (hs : Text) (list : PodList)
      → Admitted inet_aton env (h ∷ hs) list
      → (auth_k8s_hook inet_aton env empty_cache (some (h ∷ hs)) list).0 ≡ returned true
  unfolding auth_k8s_hook fill_cache
  Admitted-hook h hs list a =
      let cached = ap (cidr_of inet_aton) a.has_setting ∙ a.has_config in
      let in_range = (a.network.inside (h ∷ hs) a.address a.has_address).1 a.inside in
      decide-check_pods inet_aton (fill_cache inet_aton env empty_cache) h hs a.id a.addr a.config
        list a.has_id cached a.network.valid a.client in_range
      ∙ ap (check_pods a.id (h ∷ hs)) a.has_pods
      ∙ check_pods-returned a.id (h ∷ hs) a.pods a.pod a.metadata a.annotations
          (First-find_pod a.first_pod) a.has_metadata a.has_annotations
          (First-find_annotation a.annotated.first a.annotated.says)

-- Once the cache is filled, later changes of the environment change nothing: the hook decides by
-- the environment of its first call.
pub hook_cached :
    (inet_aton : Aton) (env env' : Environment) (host host' : Option Text) (list list' : PodList)
    → let c = (auth_k8s_hook inet_aton env empty_cache host list).1 in
      auth_k8s_hook inet_aton env' c host' list'
      ≡ auth_k8s_hook inet_aton env empty_cache host' list'
unfolding auth_k8s_hook fill_cache
hook_cached inet_aton env env' host host' list list' = refl

-- A connection with no remote host is authorized exactly if the environment names an instance and
-- a network that can be read; the pods do not matter.
pub hook_local :
    (inet_aton : Aton) (env : Environment) (list : PodList)
    → ((auth_k8s_hook inet_aton env empty_cache none list).0 ≡ returned true) ↔ (
        (id : Text) × (setting : Text) × (addr : Text) × (config : CidrConfig) × (env.inst
          ≡ some id)
        × (env.cidr ≡ some setting)
        × (parse_cidr inet_aton setting ≡ some (addr, config)))
unfolding auth_k8s_hook fill_cache decide
hook_local inet_aton env list = (
  λ e. elim (Option-cases env.inst) [
    | inl f ↦ absurd (ground (arith, e, f))
    | inr (id, f) ↦ elim (Option-cases env.cidr) [
      | inl g ↦ absurd (ground (arith, e, f, g))
      | inr (setting, g) ↦ elim (Option-cases (parse_cidr inet_aton setting)) [
        | inl k ↦ absurd (ground (arith, e, f, g, k))
        | inr ((addr, config), k) ↦ (id, setting, addr, config, f, g, k)
      ]
    ]
  ],
  λ (id, setting, addr, config, f, g, k).
      let v = valid-parse_cidr inet_aton setting addr config k in ground (arith, f, g, k, v),
)

-- A list of pods with no items lets a host of the network pass: the hook neither refuses it nor
-- calls the next hook.
pub hook_no_items :
    (inet_aton : Aton) (env : Environment) (h : ℕ) (hs id setting addr : Text) (config : CidrConfig)
    → env.inst ≡ some id
    → env.cidr ≡ some setting
    → parse_cidr inet_aton setting ≡ some (addr, config)
    → env.incluster ≡ true
    → is_ip_in_cidr inet_aton (h ∷ hs) config ≡ true
    → (has_prev : Bool)
    → let v = (auth_k8s_hook inet_aton env empty_cache (some (h ∷ hs)) (listed none)).0 in
      (v ≡ returned false) × (calls_next has_prev v ≡ false)
unfolding auth_k8s_hook fill_cache check_pods calls_next
hook_no_items inet_aton env h hs id setting addr config a b c d e has_prev =
    let cached = ap (cidr_of inet_aton) b ∙ c in
    let passed =
      decide-check_pods inet_aton (fill_cache inet_aton env empty_cache) h hs id addr config
        (listed none) a cached (valid-parse_cidr inet_aton setting addr config c) d e in
    (passed, ap (calls_next has_prev) passed)

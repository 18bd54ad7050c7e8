-- ===== src/AuthK8s.antt =====
-- project/auth_k8s.c, the authentication hook that lets only annotated pods of a Kubernetes cluster
-- connect: its cache, the CIDR test, the search of the pods, and how the hook ends.
--
-- A text is a list of codes. `inet_aton`, the cluster's client and the environment are arguments.
-- The host is little-endian, which shows in `htonl`. `ereport(FATAL, …)` does not return; the texts
-- of the messages are left out, their places are the constructors of `Refusal`.
pub mod Masks
pub mod Cidr
pub mod Search
pub mod Checks
pub mod Decision
pub mod Chain
mod Tests
use Prim.Native.Nat.{bit_and}
use otus_c.Common.{ℕ, zero, suc, ◌+◌, ◌-◌, ◌*◌, ◌/◌, ◌%◌, ◌^◌, Bool, true, false, ◌&&◌, ◌||◌, not}
use otus_c.Common.{Option, none, some, List, [], ◌∷◌, ◌++◌, ltb, leb, ◌==◌, if◌then◌else◌}
use otus_c.Common.{Text, text, str_eq, is_space, digits_value}

-- `inet_aton`: the address that a text denotes, first byte highest, if it denotes one.
abbrev pub Aton : Type 0
Aton = Text → Option ℕ

-- `htonl` reverses the four bytes.
pub htonl : ℕ → ℕ
htonl x =
    ((x % 256 * 2 ^ 8 + x / 2 ^ 8 % 256) * 2 ^ 8 + x / 2 ^ 16 % 256) * 2 ^ 8 + x / 2 ^ 24 % 256

-- `cidr_config_t`: the fields `s_addr` are in network order.
pub record CidrConfig : Type 0 where
  pub network : ℕ
  pub mask : ℕ
  pub valid : Bool

pub is_ip_in_cidr : Aton → Text → CidrConfig → Bool
unfolding htonl
is_ip_in_cidr inet_aton ip config =
    if config.valid
    then elim (inet_aton ip) [
      | none ↦ false
      | some addr ↦ bit_and (htonl addr) config.mask == bit_and config.network config.mask
    ]
    else false

-- `atoi` behind the spaces: the sign and the digits. An overflow is undefined in C.
--
-- The number if it is not negative.
atoi_sign : Text → Option ℕ
atoi_sign [] = some 0
atoi_sign (c ∷ cs) =
    if c == b'-'
    then (if digits_value 0 cs == 0 then some 0 else none)
    else if c == b'+'
    then some (digits_value 0 cs)
    else some (digits_value 0 (c ∷ cs))

pub atoi : Text → Option ℕ
unfolding atoi_sign
atoi [] = some 0
atoi (c ∷ cs) = let rest = atoi cs in if is_space c then rest else atoi_sign (c ∷ cs)

-- `strchr(text, '/')`, splitting there: what stands before and behind the first slash.
pub split_slash : Text → Option (Text × Text)
split_slash [] = none
split_slash (c ∷ cs) =
    if c == b'/'
    then some ([], cs)
    else elim (split_slash cs) [ none ↦ none | some (a, b) ↦ some (c ∷ a, b) ]

-- The mask of a network of `bits` bits, from 0 to 32. For 0 the shift is undefined, and not used.
pub cidr_mask : ℕ → ℕ
unfolding htonl
cidr_mask network_bits =
    let host_part_start = 2 ^ (32 - network_bits) in
    let host_mask = host_part_start - 1 in
    let network_mask_cpu = 2 ^ 32 - 1 - host_mask in
    if network_bits == 0 then 0 else htonl network_mask_cpu

-- The text kept of the setting (`network_addr`, cut at the slash) and its configuration.
pub parse_cidr : Aton → Text → Option (Text × CidrConfig)
unfolding split_slash atoi cidr_mask
parse_cidr inet_aton env_cidr = elim (split_slash env_cidr) [
  | none ↦ none
  | some (network_addr, bits) ↦ elim (atoi bits) [
    | none ↦ none
    | some network_bits ↦
        if leb network_bits 32
        then elim (inet_aton network_addr) [
          | none ↦ none
          | some a ↦ some (
            network_addr,
            record { network = htonl a; mask = cidr_mask network_bits; valid = true },
          )
        ]
        else none
  ]
]

-- `keyValuePair_t`, `v1_pod_t` and its parts; a pointer that may be null is an option.
pub record KeyValuePair : Type 0 where
  pub key : Option Text
  pub value : Option Text

pub record Metadata : Type 0 where
  pub name : Option Text
  pub annotations : Option (List KeyValuePair)

-- `pod_ip` is `pod->status->pod_ip`, null where `status` is.
pub record Pod : Type 0 where
  pub pod_ip : Option Text
  pub metadata : Option Metadata

-- What listing the pods gives: a null list, with the response code, or a list with its items.
pub data PodList : Type 0 where
  no_list : ℕ → PodList
  listed : Option (List Pod) → PodList

has_text : Text → Option Text → Bool
has_text t none = false
has_text t (some s) = str_eq s t

-- The loop over the pods, left at the first that matches.
pub find_pod : Text → List Pod → Option Pod
unfolding has_text
find_pod remote_host [] = none
find_pod remote_host (pod ∷ pods) =
    let later = find_pod remote_host pods in
    if has_text remote_host pod.pod_ip then some pod else later

-- The loop over the annotations, left at the first with the key.
pub find_annotation : Text → List KeyValuePair → Bool
unfolding has_text
find_annotation target_key [] = false
find_annotation target_key (kv ∷ kvs) =
    let later = find_annotation target_key kvs in
    if has_text target_key kv.key then has_text (text "true") kv.value else later

abbrev pub target_key : Text → Text
target_key instance_id = text "otus.project.postgres.instance/" ++ instance_id

pub pod_authorized : Text → Pod → Bool
unfolding find_annotation
pod_authorized instance_id pod = elim pod.metadata [
  | none ↦ false
  | some m ↦ elim m.annotations [
    | none ↦ false
    | some kvs ↦ find_annotation (target_key instance_id) kvs
  ]
]

-- The static variables; `client` is whether there is an API client.
pub record Cache : Type 0 where
  pub cache_initialized : Bool
  pub instance_id : Option Text
  pub cidr : Option (Text × CidrConfig)
  pub client : Bool

abbrev pub empty_cache : Cache
empty_cache = record { cache_initialized = false; instance_id = none; cidr = none; client = false }

-- What the process sees when the hook is called: the two variables, and whether the client can be
-- made from the configuration of the cluster.
pub record Environment : Type 0 where
  pub inst : Option Text
  pub cidr : Option Text
  pub incluster : Bool

abbrev pub cidr_of : Aton → Option Text → Option (Text × CidrConfig)
cidr_of inet_aton none = none
cidr_of inet_aton (some env_cidr) = parse_cidr inet_aton env_cidr

pub fill_cache : Aton → Environment → Cache → Cache
unfolding parse_cidr
fill_cache inet_aton env c = if c.cache_initialized then c else record {
  cache_initialized = true;
  instance_id = env.inst;
  cidr = cidr_of inet_aton env.cidr;
  client = env.incluster;
}

pub data Refusal : Type 0 where
  no_instance_id no_cidr outside_cidr rbac_error api_error no_annotation no_client : Refusal

-- A call ends by FATAL, or returns; `authorized` decides whether the next hook is called.
pub data Verdict : Type 0 where
  fatal : Refusal → Verdict
  returned : Bool → Verdict

pub check_pods : Text → Text → PodList → Verdict
unfolding find_pod pod_authorized
check_pods instance_id remote_host (no_list code) =
    if code == 403 then fatal rbac_error else fatal api_error
check_pods instance_id remote_host (listed none) = returned false
check_pods instance_id remote_host (listed (some pods)) = elim (find_pod remote_host pods) [
  | none ↦ fatal no_annotation
  | some pod ↦ if pod_authorized instance_id pod then returned true else fatal no_annotation
]

-- The hook behind the filling of the cache. `remote_host` is the port's, null for none.
pub decide : Aton → Cache → Option Text → PodList → Verdict
unfolding is_ip_in_cidr check_pods
decide inet_aton c remote_host pod_list = elim c.instance_id [
  | none ↦ fatal no_instance_id
  | some instance_id ↦ elim c.cidr [
    | none ↦ fatal no_cidr
    | some (cidr_str, config) ↦ if not config.valid then fatal no_cidr else elim remote_host [
      | none ↦ returned true
      | some [] ↦ returned true
      | some (h ∷ hs) ↦
          if not c.client
          then fatal no_client
          else if not (is_ip_in_cidr inet_aton (h ∷ hs) config)
          then fatal outside_cidr
          else check_pods instance_id (h ∷ hs) pod_list
    ]
  ]
]

-- `auth_k8s_hook`: the verdict, and the cache that the next call finds.
pub auth_k8s_hook : Aton → Environment → Cache → Option Text → PodList → Verdict × Cache
unfolding fill_cache decide
auth_k8s_hook inet_aton env c remote_host pod_list =
    let c' = fill_cache inet_aton env c in (decide inet_aton c' remote_host pod_list, c')

-- Whether the hook that was installed before is called.
pub calls_next : Bool → Verdict → Bool
calls_next has_prev (fatal r) = false
calls_next has_prev (returned authorized) = authorized && has_prev

-- ===== src/AuthK8s/Checks.antt =====
-- The verdicts of `check_pods` and `decide` of project/auth_k8s.c.
use otus_c.Common.{ℕ, ◌≡◌, refl}
use otus_c.Common.{true, none, some, Option-cases, inl, inr, arith}
use otus_c.Common.{List, ◌∷◌, Text}
use otus_c.AuthK8s.{Aton, CidrConfig, is_ip_in_cidr, KeyValuePair, Metadata, Pod, PodList}
use otus_c.AuthK8s.{no_list, listed, find_pod, find_annotation, target_key, pod_authorized}
use otus_c.AuthK8s.{Cache, returned, check_pods}
use otus_c.AuthK8s.{decide}

-- The pods behind a verdict that authorizes.
pub record PodsPassed (id host : Text) (list : PodList) : Type 0 where
  pub pods : List Pod
  pub has_pods : list ≡ listed (some pods)
  pub pod : Pod
  pub found : find_pod host pods ≡ some pod
  pub metadata : Metadata
  pub has_metadata : pod.metadata ≡ some metadata
  pub annotations : List KeyValuePair
  pub has_annotations : metadata.annotations ≡ some annotations
  pub annotated : find_annotation (target_key id) annotations ≡ true

pub check_pods-PodsPassed :
    (id host : Text) (list : PodList)
    → check_pods id host list ≡ returned true
    → PodsPassed id host list
unfolding check_pods pod_authorized
check_pods-PodsPassed id host (no_list code) e = absurd (ground (arith, e))
check_pods-PodsPassed id host (listed none) e = cc
check_pods-PodsPassed id host (listed (some pods)) e = elim (Option-cases (find_pod host pods)) [
  | inl f ↦ absurd (ground (arith, e, f))
  | inr (pod, f) ↦ elim (Option-cases pod.metadata) [
    | inl g ↦ absurd (ground (arith, e, f, g))
    | inr (m, g) ↦ elim (Option-cases m.annotations) [
      | inl k ↦ absurd (ground (arith, e, f, g, k))
      | inr (kvs, k) ↦ record {
        pods = pods;
        has_pods = refl;
        pod = pod;
        found = f;
        metadata = m;
        has_metadata = g;
        annotations = kvs;
        has_annotations = k;
        annotated = ground (arith, e, f, g, k);
      }
    ]
  ]
]

-- The cache behind a verdict that authorizes a remote host.
pub record CachePassed (inet_aton : Aton) (c : Cache) (host : Text) (list : PodList) : Type 0 where
  pub id : Text
  pub addr : Text
  pub config : CidrConfig
  pub has_id : c.instance_id ≡ some id
  pub has_cidr : c.cidr ≡ some (addr, config)
  pub client : c.client ≡ true
  pub inside : is_ip_in_cidr inet_aton host config ≡ true
  pub pods : check_pods id host list ≡ returned true

pub decide-CachePassed :
    (inet_aton : Aton) (c : Cache) (h : ℕ) (hs : Text) (list : PodList)
    → decide inet_aton c (some (h ∷ hs)) list ≡ returned true
    → CachePassed inet_aton c (h ∷ hs) list
unfolding decide
decide-CachePassed inet_aton c h hs list e = elim (Option-cases c.instance_id) [
  | inl f ↦ absurd (ground (arith, e, f))
  | inr (id, f) ↦ elim (Option-cases c.cidr) [
    | inl g ↦ absurd (ground (arith, e, f, g))
    | inr ((addr, config), g) ↦
        let in_range = is_ip_in_cidr inet_aton (h ∷ hs) config in
        record {
          id = id;
          addr = addr;
          config = config;
          has_id = f;
          has_cidr = g;
          client = ground (arith, e, f, g);
          inside = ground (arith, e, f, g);
          pods = ground (arith, e, f, g);
        }
  ]
]

-- With a full cache and a host in the network, the pods decide.
pub decide-check_pods :
    (inet_aton : Aton) (c : Cache) (h : ℕ) (hs id addr : Text) (config : CidrConfig)
    (list : PodList)
    → c.instance_id ≡ some id
    → c.cidr ≡ some (addr, config)
    → config.valid ≡ true
    → c.client ≡ true
    → is_ip_in_cidr inet_aton (h ∷ hs) config ≡ true
    → decide inet_aton c (some (h ∷ hs)) list ≡ check_pods id (h ∷ hs) list
unfolding decide
decide-check_pods inet_aton c h hs id addr config list p q r s t = ground (arith, p, q, r, s, t)

pub check_pods-returned :
    (id host : Text) (pods : List Pod) (pod : Pod) (m : Metadata) (kvs : List KeyValuePair)
    → find_pod host pods ≡ some pod
    → pod.metadata ≡ some m
    → m.annotations ≡ some kvs
    → find_annotation (target_key id) kvs ≡ true
    → check_pods id host (listed (some pods)) ≡ returned true
unfolding check_pods pod_authorized
check_pods-returned id host pods pod m kvs p q r s = ground (arith, p, q, r, s)

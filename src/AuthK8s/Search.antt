-- ===== src/AuthK8s/Search.antt =====
-- The loops of project/auth_k8s.c over the pods and over the annotations: each is left at the first
-- element that matches.
use mathlib.Core.Path.{subst}
use otus_c.Common.{◌≡◌, ◌≢◌, ap}
use otus_c.Common.{true, false, Bool-cases, Option, none, some, inl, inr, arith}
use otus_c.Common.{List, [], ◌∷◌, Text, text, str_eq→≡, str_eq_refl}
use otus_c.AuthK8s.{KeyValuePair, Pod}
use otus_c.AuthK8s.{has_text, find_pod, find_annotation}

-- `y` is the first element with the property.
pub data First {A : Type 0} (P : A → Type 0) : List A → A → Type 0 where
  here : {x : A} {xs : List A} → P x → First P (x ∷ xs) x
  later : {x y : A} {xs : List A} → ¬ P x → First P xs y → First P (x ∷ xs) y

has_text→≡ : (t : Text) (o : Option Text) → has_text t o ≡ true → o ≡ some t
unfolding has_text
has_text→≡ t none h = cc
has_text→≡ t (some s) h = ap some (str_eq→≡ s t h)

has_text→≢ : (t : Text) (o : Option Text) → has_text t o ≡ false → o ≢ some t
unfolding has_text
has_text→≢ t none h e = cc
has_text→≢ t (some s) h e = cc (h, e, str_eq_refl t)

has_text_refl : (t : Text) (o : Option Text) → o ≡ some t → has_text t o ≡ true
unfolding has_text
has_text_refl t none e = cc
has_text_refl t (some s) e = cc (e, str_eq_refl t)

abbrev pub HasIp : Text → Pod → Type 0
HasIp host pod = pod.pod_ip ≡ some host

abbrev pub HasKey : Text → KeyValuePair → Type 0
HasKey k kv = kv.key ≡ some k

pub find_pod-First :
    (host : Text) (pods : List Pod) (pod : Pod)
    → find_pod host pods ≡ some pod
    → First (HasIp host) pods pod
unfolding find_pod
find_pod-First host [] pod e = cc
find_pod-First host (p ∷ pods) pod e = elim (Bool-cases (has_text host p.pod_ip)) [
  | inl yes' ↦
      let e' : p ≡ pod = ground (arith, e, yes') in
      subst (First (HasIp host) (p ∷ pods)) e' (here (has_text→≡ host p.pod_ip yes'))
  | inr no' ↦
      later (has_text→≢ host p.pod_ip no') (find_pod-First host pods pod (ground (arith, e, no')))
]

pub First-find_pod :
    {host : Text} {pods : List Pod} {pod : Pod}
    → First (HasIp host) pods pod
    → find_pod host pods ≡ some pod
unfolding find_pod
First-find_pod {host} (here {x = p} h) = rw (has_text_refl host p.pod_ip h)
First-find_pod {host} (later {x = p} n f) = elim (Bool-cases (has_text host p.pod_ip)) [
  | inl yes' ↦ absurd (n (has_text→≡ host p.pod_ip yes'))
  | inr no' ↦ rw no' (First-find_pod f)
]

-- The first annotation with the key decides.
pub record Annotated (k : Text) (kvs : List KeyValuePair) : Type 0 where
  pub kv : KeyValuePair
  pub first : First (HasKey k) kvs kv
  pub says : kv.value ≡ some (text "true")

pub find_annotation-Annotated :
    (k : Text) (kvs : List KeyValuePair) → find_annotation k kvs ≡ true → Annotated k kvs
unfolding find_annotation
find_annotation-Annotated k [] e = cc
find_annotation-Annotated k (x ∷ kvs) e = elim (Bool-cases (has_text k x.key)) [
  | inl yes' ↦ record {
    kv = x;
    first = here (has_text→≡ k x.key yes');
    says = has_text→≡ (text "true") x.value (ground (arith, e, yes'));
  }
  | inr no' ↦
      let r = find_annotation-Annotated k kvs (ground (arith, e, no')) in
      record { kv = r.kv; first = later (has_text→≢ k x.key no') r.first; says = r.says }
]

pub First-find_annotation :
    {k : Text} {kvs : List KeyValuePair} {kv : KeyValuePair}
    → First (HasKey k) kvs kv
    → kv.value ≡ some (text "true")
    → find_annotation k kvs ≡ true
unfolding find_annotation
First-find_annotation {k} (here {x = x} h) v =
    rw (has_text_refl k x.key h) (has_text_refl (text "true") x.value v)
First-find_annotation {k} (later {x = x} n f) v = elim (Bool-cases (has_text k x.key)) [
  | inl yes' ↦ absurd (n (has_text→≡ k x.key yes'))
  | inr no' ↦ rw no' (First-find_annotation f v)
]

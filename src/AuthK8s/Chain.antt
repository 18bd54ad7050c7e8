-- ===== src/AuthK8s/Chain.antt =====
-- The hook of project/auth_k8s.c among the hooks of PostgreSQL: `_PG_init` and the call of the next
-- hook.
use otus_c.Common.{ℕ, ◌≡◌, ◌↔◌, refl, Bool, true, false, Option, none, some}
use otus_c.Common.{ap}
use otus_c.Common.{List, [], ◌∷◌, Text, Option-cases, inl, inr, if◌then◌else◌, arith}
use otus_c.AuthK8s.{
  Aton, Environment, PodList, Verdict, fatal, returned, auth_k8s_hook, empty_cache,
}
use otus_c.AuthK8s.{calls_next}
use otus_c.AuthK8s.Cidr.{IsAddress}
use otus_c.AuthK8s.Decision.{Admitted, hook-Admitted, Admitted-hook}

-- A hook for the authentication of clients.
pub data Hook : Type 0 where
  auth_k8s : Hook
  another : ℕ → Hook

-- PostgreSQL's variable, and the static one; none is NULL.
pub record Hooks : Type 0 where
  pub client_authentication_hook : Option Hook
  pub prev_client_auth_hook : Option Hook

-- `_PG_init`
pub pg_init : Hooks → Hooks
pg_init h = record {
  client_authentication_hook = some auth_k8s;
  prev_client_auth_hook = h.client_authentication_hook;
}

abbrev has : Option Hook → Bool
has none = false
has (some k) = true

-- The hook that `auth_k8s_hook` calls at its end, behind a verdict.
pub next_called : Hooks → Verdict → Option Hook
unfolding calls_next
next_called h v =
    if calls_next (has h.prev_client_auth_hook) v then h.prev_client_auth_hook else none

next_called-cases :
    (h : Hooks) (v : Verdict) (k : Hook)
    → (next_called h v ≡ some k) ↔ ((h.prev_client_auth_hook ≡ some k) × (v ≡ returned true))
unfolding next_called calls_next
next_called-cases h (fatal r) k =
    (λ e. absurd (ground (arith, e)), λ p. absurd (ground (arith, p.1)))
next_called-cases h (returned false) k =
    (λ e. absurd (ground (arith, e)), λ p. absurd (ground (arith, p.1)))
next_called-cases h (returned true) k = elim (Option-cases h.prev_client_auth_hook) [
  | inl n ↦ rw (n) (λ e. absurd (ground (arith, e)), λ p. absurd (ground (arith, p.0)))
  | inr (j, s) ↦ rw (s) (λ e. (e, refl), λ p. p.0)
]

abbrev pub to_list : Option Hook → List Hook
to_list none = []
to_list (some k) = k ∷ []

-- The hooks that are called for a connection: PostgreSQL calls the one of its variable, if there is
-- one, and `auth_k8s_hook` the next, behind its verdict. What other hooks call is not followed.
pub hooks_called : Hooks → Verdict → List Hook
unfolding next_called
hooks_called h v = elim h.client_authentication_hook [
  | none ↦ []
  | some auth_k8s ↦ auth_k8s ∷ to_list (next_called h v)
  | some (another n) ↦ another n ∷ []
]

to_list_one : (o : Option Hook) (k : Hook) → (to_list o ≡ k ∷ []) ↔ (o ≡ some k)
to_list_one none k = (λ e. absurd (ground (arith, e)), λ e. absurd (ground (arith, e)))
to_list_one (some j) k = (λ e. let p : j ≡ k = cc in ap some p, λ e. ap to_list e)

-- Behind `_PG_init`, PostgreSQL's first connection calls `auth_k8s_hook`, whatever hook was installed
-- before; a remote host is authorized exactly if it is admitted, and exactly for such a host the hook
-- that was installed before is called next. `inet_aton` is taken to give 32-bit addresses.
pub pg_init-Admitted :
    (inet_aton : Aton) (env : Environment) (before : Hooks) (h : ℕ) (hs : Text) (list : PodList)
    (k : Hook)
    → IsAddress inet_aton
    → let v = (auth_k8s_hook inet_aton env empty_cache (some (h ∷ hs)) list).0 in
      ((v ≡ returned true) ↔ Admitted inet_aton env (h ∷ hs) list)
      × ((rest : List Hook) × (hooks_called (pg_init before) v ≡ auth_k8s ∷ rest)
          × ((rest ≡ k ∷ []) ↔ (
              (before.client_authentication_hook ≡ some k) × Admitted inet_aton env (h ∷ hs) list)))
unfolding pg_init hooks_called
pg_init-Admitted inet_aton env before h hs list k sound =
    let v = (auth_k8s_hook inet_aton env empty_cache (some (h ∷ hs)) list).0 in
    let there = hook-Admitted inet_aton sound env h hs list in
    let back = Admitted-hook inet_aton sound env h hs list in
    let next = next_called (pg_init before) v in
    let c = next_called-cases (pg_init before) v k in
    let l = to_list_one next k in
    (
      (there, back),
      (
        to_list next,
        refl,
        (λ e. let (p, r) = c.0 (l.0 e) in (p, there r), λ p. l.1 (c.1 (p.0, back p.1))),
      ),
    )

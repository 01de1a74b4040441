-- ===== src/Rbac/V2/Entries.antt =====
-- Which operations and sources the rules of a policy have.
use k8s_athenz_istio_auth.Prelude.{
  ℕ, ◌≡◌, refl, sym, subst, ap, ◌∙◌, Bool, true, List, [], ◌∷◌, Option, none, some, any, In,
  In-append_left, In-append_right, inl, inr, Bool-cases, if◌then◌else◌,
}
use k8s_athenz_istio_auth.Prelude.Outcome.{ok}
use k8s_athenz_istio_auth.Prelude.Text.{Text, same, same_iff, to_upper}
use k8s_athenz_istio_auth.Prelude.Keyed.{Keyed, lookup}
use k8s_athenz_istio_auth.Athenz.Zms.{Assertion, allow}
use k8s_athenz_istio_auth.Athenz.Model.{Model}
use k8s_athenz_istio_auth.Rbac.Spec.{Operation, Source, Rule}
use k8s_athenz_istio_auth.Rbac.Assertion.{supported_methods, parse_assertion_resource}
use k8s_athenz_istio_auth.Rbac.ServiceRole.Complete.{effect_accepted, action_accepted}
use k8s_athenz_istio_auth.Rbac.Member.{Member}
use k8s_athenz_istio_auth.Rbac.Principals.Entries.{
  Entry, principal, request_principal, namespace, Holds, Enters,
}
use k8s_athenz_istio_auth.Rbac.V2.{
  svc_pattern, drop_query, operation_of, granted_operation, matched_operation, assertion_operation,
  append_operation, rule_to, from_namespaces, from_request_principals, rule_from, keys,
}

pub lookup-In_keys :
    {V : Type 0} (m : Keyed V) (k : Text) (v : V) → lookup m k ≡ some v → In k (keys m)
unfolding lookup keys
lookup-In_keys [] k v h = cc
lookup-In_keys ((j, w) ∷ m) k v h = elim (Bool-cases (same j k)) [
  | inl e ↦ inl (sym ((same_iff j k).0 e))
  | inr e ↦ inr (lookup-In_keys m k v (rw e at h))
]

In-if_true :
    (s : Source) (b : Bool) (sources : List Source)
    → b ≡ true
    → In s sources
    → In s (if b then sources else [])
In-if_true s b sources e i = rw e i

-- The entry is in one of the sources.
abbrev pub HoldsOne : List Source → Entry → Type 0
HoldsOne sources entry = (s : Source) × In s sources × Holds s entry

-- The rule has the operation, and a source with the entry.
abbrev pub LetsIn : Operation → Entry → Rule → Type 0
LetsIn operation entry rule = In operation rule.to × HoldsOne rule.from entry

module _ (jwt : Bool) (now : ℕ) (match_string : Text → Text → Option Bool) where
  -- The operations.

  pub assertion_operation-made :
      (domain svc_label svc path effect : Text) (a : Assertion)
      → parse_assertion_resource domain (some a) ≡ ok (svc, path)
      → match_string (svc_pattern svc) svc_label ≡ some true
      → a.effect ≡ some effect
      → to_upper effect ≡ allow
      → any (same (to_upper a.action)) supported_methods ≡ true
      → assertion_operation jwt now match_string domain svc_label (some a)
        ≡ some (operation_of (drop_query path) (to_upper a.action))
  unfolding assertion_operation matched_operation granted_operation
  assertion_operation-made domain svc_label svc path effect a hp hm he hu hs =
      rw (hp, hm, effect_accepted a effect he hu, action_accepted a hs) refl

  In-append_operation :
      (o : Operation) (first : Option Operation) (os : List Operation)
      → In o os
      → In o (append_operation jwt now match_string first os)
  In-append_operation o none os i = i
  In-append_operation o (some first) os i = inr i

  pub rule_to-In :
      (domain svc_label : Text) (a : Assertion) (o : Operation)
      (assertions : List (Option Assertion))
      → In (some a) assertions
      → assertion_operation jwt now match_string domain svc_label (some a) ≡ some o
      → In o (rule_to jwt now match_string domain svc_label assertions)
  unfolding rule_to
  rule_to-In domain svc_label a o [] i made = absurd i
  rule_to-In domain svc_label a o (a' ∷ assertions) (inl here) made =
      let found : some o ≡ assertion_operation jwt now match_string domain svc_label a' =
        sym made ∙ ap (assertion_operation jwt now match_string domain svc_label) here in
      subst
        (λ first. In o (
          append_operation jwt now match_string first
            (rule_to jwt now match_string domain svc_label assertions)))
        found (inl refl)
  rule_to-In domain svc_label a o (a' ∷ assertions) (inr later) made =
      In-append_operation o (assertion_operation jwt now match_string domain svc_label a')
        (rule_to jwt now match_string domain svc_label assertions)
        (rule_to-In domain svc_label a o assertions later made)

  -- The sources.

  from_namespaces-HoldsOne :
      (ns : Text) (l : List Text)
      → In ns l
      → HoldsOne (from_namespaces jwt now match_string l) (namespace ns)
  from_namespaces-HoldsOne ns [] i = absurd i
  from_namespaces-HoldsOne ns (n ∷ l) i = (_, inl refl, i)

  from_request_principals-HoldsOne :
      (p : Text) (l : List Text)
      → In p l
      → HoldsOne (from_request_principals jwt now match_string l) (request_principal p)
  from_request_principals-HoldsOne p [] i = absurd i
  from_request_principals-HoldsOne p (q ∷ l) i = (_, inl refl, i)

  pub rule_from-HoldsOne :
      (m : Model) (member : Member) (entry : Entry) (source : Source) (spiffe : Text)
      → Enters jwt now m member entry
      → Holds source entry
      → HoldsOne (rule_from jwt now match_string source spiffe) entry
  unfolding rule_from
  rule_from-HoldsOne m member (principal p) source spiffe enters h =
      (_, inl refl, In-append_left p source.principals (spiffe ∷ []) h)
  rule_from-HoldsOne m member (namespace ns) source spiffe enters h =
      let (s, i, found) = from_namespaces-HoldsOne ns source.namespaces h in
      (
        s,
        inr (In-append_left s (from_namespaces jwt now match_string source.namespaces) _ i),
        found,
      )
  rule_from-HoldsOne m member (request_principal p) source spiffe enters h =
      let (s, i, found) = from_request_principals-HoldsOne p source.request_principals h in
      let there =
        In-if_true s jwt (from_request_principals jwt now match_string source.request_principals)
          enters.0 i in
      (
        s,
        inr (In-append_right s (from_namespaces jwt now match_string source.namespaces) _ there),
        found,
      )

-- ===== src/Rbac/Config/Keys.antt =====
-- Lists of configurations looked up by key, and the keyed map of such a list.
use k8s_athenz_istio_auth.Prelude.{
  ◌≡◌, refl, List, [], ◌∷◌, Option, none, some, arith, All, if◌then◌else◌, Option-cases, inl, inr,
  In, ◌⊎◌, Bool-cases,
}
use k8s_athenz_istio_auth.Prelude.Text.{Text, same, same_iff, same_refl}
use k8s_athenz_istio_auth.Prelude.Keyed.{Keyed, lookup, insert, lookup-insert}
use k8s_athenz_istio_auth.Rbac.Config.{
  Config, ConfigApi, config_key, keep_all, convert_slice_to_keyed_map,
}

module _ {S : Type 0} (api : ConfigApi S) where
  -- The first configuration with a key.
  unfoldable pub find : List (Config S) → Text → Option (Config S)
  find [] k = none
  find (c ∷ cs) k = if same (config_key api c) k then some c else find cs k

  -- No two configurations have one key.
  abbrev pub HasDistinctKeys : List (Config S) → Type 0
  HasDistinctKeys [] = Unit
  HasDistinctKeys (c ∷ cs) = (find cs (config_key api c) ≡ none) × HasDistinctKeys cs

  abbrev pub or_else : Option (Config S) → Option (Config S) → Option (Config S)
  or_else none b = b
  or_else (some a) b = some a

  pub find-key :
      (cs : List (Config S)) (k : Text) (c : Config S) → find cs k ≡ some c → config_key api c ≡ k
  unfolding find
  find-key [] k c h = cc
  find-key (d ∷ cs) k c h = ground (arith, same_iff (config_key api d) k, find-key cs k c)

  lookup-keep_all :
      (m : Keyed (Config S)) (cs : List (Config S)) (k : Text)
      → HasDistinctKeys cs
      → lookup (keep_all api m cs) k ≡ or_else (find cs k) (lookup m k)
  unfolding keep_all find
  lookup-keep_all m [] k h = refl
  lookup-keep_all m (c ∷ cs) k h = elim (Option-cases (find cs k)) [
    | inl e ↦
        rw (lookup-keep_all (insert m (config_key api c) c) cs k h.1, e)
          (ground (arith, lookup-insert m (config_key api c) k c))
    | inr (d, e) ↦ ground (
      arith,
      lookup-keep_all (insert m (config_key api c) c) cs k h.1,
      same_iff (config_key api c) k,
      lookup-insert m (config_key api c) k c,
    )
  ]

  or_else-none : (o : Option (Config S)) → or_else o none ≡ o
  or_else-none none = refl
  or_else-none (some c) = refl

  -- In the keyed map of a list with distinct keys each key has its configuration.
  pub lookup-convert :
      (cs : List (Config S)) (k : Text)
      → HasDistinctKeys cs
      → lookup (convert_slice_to_keyed_map api cs) k ≡ find cs k
  unfolding convert_slice_to_keyed_map find lookup
  lookup-convert cs k h = rw (lookup-keep_all [] cs k h) (or_else-none (find cs k))

  inserted :
      (m : Keyed (Config S)) (d : Config S) (cs : List (Config S)) (k : Text) (c : Config S)
      → lookup (insert m (config_key api d) d) k ≡ some c
      → In c (d ∷ cs) ⊎ (lookup m k ≡ some c)
  inserted m d cs k c e = elim (Bool-cases (same (config_key api d) k)) [
    | inl s ↦ inl (inl (ground (arith, s, e, lookup-insert m (config_key api d) k d)))
    | inr s ↦ inr (ground (arith, s, e, lookup-insert m (config_key api d) k d))
  ]

  In-keep_all :
      (m : Keyed (Config S)) (cs : List (Config S)) (k : Text) (c : Config S)
      → lookup (keep_all api m cs) k ≡ some c
      → In c cs ⊎ (lookup m k ≡ some c)
  unfolding keep_all
  In-keep_all m [] k c h = inr h
  In-keep_all m (d ∷ cs) k c h = elim (In-keep_all (insert m (config_key api d) d) cs k c h) [
    | inl i ↦ inl (inr i)
    | inr e ↦ inserted m d cs k c e
  ]

  -- What the keyed map of a list has is in the list.
  pub In-convert :
      (cs : List (Config S)) (k : Text) (c : Config S)
      → lookup (convert_slice_to_keyed_map api cs) k ≡ some c
      → In c cs
  unfolding convert_slice_to_keyed_map lookup
  In-convert cs k c h = elim (In-keep_all [] cs k c h) [ inl i ↦ i | inr e ↦ cc ]

  -- The lookup of each of these configurations' keys finds it.
  abbrev pub AllFound : List (Config S) → List (Config S) → Type 0
  AllFound cs = All (λ d. find cs (config_key api d) ≡ some d)

  AllFound-cons :
      (c : Config S) (cs ds : List (Config S))
      → find cs (config_key api c) ≡ none
      → AllFound cs ds
      → AllFound (c ∷ cs) ds
  unfolding find
  AllFound-cons c cs [] new h = tt
  AllFound-cons c cs (d ∷ ds) new h = (
    ground (arith, same_iff (config_key api c) (config_key api d), h.0),
    AllFound-cons c cs ds new h.1,
  )

  pub AllFound-self : (cs : List (Config S)) → HasDistinctKeys cs → AllFound cs cs
  unfolding find
  AllFound-self [] h = tt
  AllFound-self (c ∷ cs) h = (
    ground (arith, same_refl (config_key api c)),
    AllFound-cons c cs cs h.0 (AllFound-self cs h.1),
  )

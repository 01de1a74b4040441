-- ===== src/Domains/Home.antt =====
-- Where the events on the resources of a domain lead: `processConfigEvent` of
-- pkg/controller/controller.go.
use k8s_athenz_istio_auth.Prelude.{
  ◌≡◌, sym, ap, subst, ◌∙◌, List, [], ◌∷◌, ◌++◌, Option, some, All, All-append, In, inl, inr,
}
use k8s_athenz_istio_auth.Prelude.Outcome.{returns}
use k8s_athenz_istio_auth.Prelude.Text.{Text}
use k8s_athenz_istio_auth.Athenz.Names.{namespace_to_domain, IsDotted, to_domain-to_namespace_iff}
use k8s_athenz_istio_auth.Athenz.Zms.{DomainData}
use k8s_athenz_istio_auth.Athenz.Model.{
  Model, domain_name_of, convert_athenz_policies_into_rbac_model,
}
use k8s_athenz_istio_auth.Athenz.Model.Placed.{model-placed}
use k8s_athenz_istio_auth.Rbac.Config.{Config}
use k8s_athenz_istio_auth.Rbac.Spec.{Spec}
use k8s_athenz_istio_auth.Rbac.V1.Made.{IsBindingOf}
use k8s_athenz_istio_auth.Rbac.V1.Produced.{
  IsRound, IsRounds, convert_athenz_model_into_istio_rbac-IsRounds,
}
use k8s_athenz_istio_auth.Domains.{Environment, desired_configs, process_config_event}

module _ (env : Environment) (m : Model) where
  abbrev IsPlaced : Config Spec → Type 0
  IsPlaced c = c.meta.namespace ≡ m.namespace

  bindings-IsPlaced :
      (role role_name : Text) (cs : List (Config Spec))
      → All (IsBindingOf env.enable_origin_jwt_subject m role role_name) cs
      → All IsPlaced cs
  bindings-IsPlaced role role_name [] h = tt
  bindings-IsPlaced role role_name (c ∷ cs) h =
      ((h.0).is_placed, bindings-IsPlaced role role_name cs h.1)

  IsRound-IsPlaced :
      (role : Text) (cs : List (Config Spec))
      → IsRound env.collections env.validation env.enable_origin_jwt_subject m role cs
      → All IsPlaced cs
  IsRound-IsPlaced role [] h = tt
  IsRound-IsPlaced role (c ∷ cs) (role_name, named, is_role, bindings) =
      (is_role.is_placed, bindings-IsPlaced role role_name cs bindings)

  IsRounds-IsPlaced :
      (roles : List Text) (out : List (Config Spec))
      → IsRounds env.collections env.validation env.enable_origin_jwt_subject m roles out
      → All IsPlaced out
  IsRounds-IsPlaced [] out h = subst (All IsPlaced) (sym h) tt
  IsRounds-IsPlaced (role ∷ roles) out (first, rest, e, round, rounds) =
      subst (All IsPlaced) (sym e) (
        All-append IsPlaced first rest (IsRound-IsPlaced role first round)
          (IsRounds-IsPlaced roles rest rounds))

  desired-IsPlaced :
      (desired : List (Config Spec))
      → desired_configs env m ≡ returns desired
      → All IsPlaced desired
  desired-IsPlaced desired h = IsRounds-IsPlaced m.roles desired (
      convert_athenz_model_into_istio_rbac-IsRounds env.collections env.validation
        env.enable_origin_jwt_subject m desired h)

All-In {ℓ} : {A : Type 0} (P : A → Type ℓ) (xs : List A) (x : A) → All P xs → In x xs → P x
All-In P [] x h i = absurd i
All-In P (y ∷ ys) x h (inl e) = subst P (sym e) h.0
All-In P (y ∷ ys) x h (inr i) = All-In P ys x h.1 i

-- An event on a resource that a sync of a domain desires puts the name of that domain on the queue,
-- if no dot of the name stands directly before a dot or a dash.
pub process_config_event-desired :
    (env : Environment) (domain : Option DomainData) (m : Model) (desired : List (Config Spec))
    (c : Config Spec) (queue : List Text)
    → IsDotted (domain_name_of domain)
    → convert_athenz_policies_into_rbac_model domain (some env.get_by_key) ≡ returns m
    → desired_configs env m ≡ returns desired
    → In c desired
    → process_config_event queue c ≡ queue ++ (domain_name_of domain ∷ [])
unfolding process_config_event
process_config_event-desired env domain m desired c queue dotted hm hd i =
    let placed : c.meta.namespace ≡ m.namespace =
      All-In (IsPlaced env m) desired c (desired-IsPlaced env m desired hd) i in
    ap (λ d. queue ++ (d ∷ []))
      (ap namespace_to_domain (placed ∙ (model-placed domain (some env.get_by_key) m hm).1)
        ∙ (to_domain-to_namespace_iff (domain_name_of domain)).1 dotted)

-- ===== src/Rbac/ChangeList/Quiet.antt =====
-- Once the change list is carried out, the next one is empty.
use k8s_athenz_istio_auth.Prelude.{
  ◌≡◌, refl, sym, ◌∙◌, Bool, true, List, [], ◌∷◌, Option, none, some, arith,
}
use k8s_athenz_istio_auth.Prelude.Text.{Text, same_refl}
use k8s_athenz_istio_auth.Rbac.Config.{
  Config, ConfigApi, OnComplete, config_key, equal, convert_slice_to_keyed_map,
}
use k8s_athenz_istio_auth.Rbac.Config.Keys.{
  find, find-key, HasDistinctKeys, AllFound, AllFound-self, lookup-convert,
}
use k8s_athenz_istio_auth.Rbac.ChangeList.{
  emit, desired_change, current_change, desired_changes, current_changes, compute_change_list,
}
use k8s_athenz_istio_auth.Rbac.ChangeList.Settle.{settled}

module _ {S : Type 0} (api : ConfigApi S) (callback : Option OnComplete)
    (check : Option (Config S → Bool)) where
  desired_change-settled :
      (e : Option (Config S)) (d : Config S)
      → ((x : S) → api.spec_equal x x ≡ true)
      → ((c : Config S) → e ≡ some c → config_key api c ≡ config_key api d)
      → desired_change api callback check (settled api callback check e (some d)) d ≡ none
  unfolding desired_change settled equal
  desired_change-settled none d eq keyed = ground (arith, eq d.spec, same_refl (config_key api d))
  desired_change-settled (some e) d eq keyed =
      ground (arith, eq d.spec, same_refl (config_key api d), keyed e refl)

  current_change-settled :
      (e d : Option (Config S)) (c : Config S)
      → settled api callback check e d ≡ some c
      → current_change api callback check d c ≡ none
  unfolding current_change settled
  current_change-settled none none c h = cc
  current_change-settled (some e) none c h = ground arith
  current_change-settled e (some d) c h = ground arith

  module _ (current desired next : List (Config S))
      (spec_equal_refl : (x : S) → api.spec_equal x x ≡ true) (hc : HasDistinctKeys api current)
      (hd : HasDistinctKeys api desired) (hn : HasDistinctKeys api next)
      (converged : (k : Text)
        → find api next k
          ≡ settled api callback check (find api current k) (find api desired k)) where
    desired_changes-nil :
        (ds : List (Config S))
        → AllFound api desired ds
        → desired_changes api callback check (convert_slice_to_keyed_map api next) ds ≡ []
    unfolding desired_changes emit
    desired_changes-nil [] h = refl
    desired_changes-nil (d ∷ ds) (found, h) =
        let k = config_key api d in
        rw (
          lookup-convert api next k hn,
          converged k,
          found,
          desired_change-settled (find api current k) d spec_equal_refl (find-key api current k),
          desired_changes-nil ds h,
        )

    current_changes-nil :
        (cs : List (Config S))
        → AllFound api next cs
        → current_changes api callback check (convert_slice_to_keyed_map api desired) cs ≡ []
    unfolding current_changes emit
    current_changes-nil [] h = refl
    current_changes-nil (c ∷ cs) (found, h) =
        let k = config_key api c in
        rw (
          lookup-convert api desired k hd,
          current_change-settled (find api current k) (find api desired k) c
              (sym (converged k) ∙ found),
          current_changes-nil cs h,
        )

    -- If specifications are equal to themselves, and the current, the desired and the new
    -- configurations have distinct keys, and the new ones hold at each key what the change list
    -- leaves there, then the change list from the new to the desired ones is empty.
    pub compute_change_list-settled : compute_change_list api next desired callback check ≡ []
    unfolding compute_change_list
    compute_change_list-settled = rw (
      desired_changes-nil desired (AllFound-self api desired hd),
      current_changes-nil next (AllFound-self api next hn),
    )

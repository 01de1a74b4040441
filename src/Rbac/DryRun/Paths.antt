-- ===== src/Rbac/DryRun/Paths.antt =====
-- Different services have different files.
use k8s_athenz_istio_auth.Prelude.{◌≡◌, refl, sym, ap, ◌∙◌, [], ◌∷◌, ◌++◌, arith}
use k8s_athenz_istio_auth.Prelude.Text.{Text, codes, Lacks, trim_suffix, trim_suffix-append}
use k8s_athenz_istio_auth.Rbac.DryRun.{yaml_path}

append_cancel : (p s t : Text) → p ++ s ≡ p ++ t → s ≡ t
append_cancel [] s t h = h
append_cancel (c ∷ p) s t h = append_cancel p s t (cc h)

before_slash :
    (a b s t : Text)
    → Lacks b'/' a
    → Lacks b'/' b
    → a ++ (b'/' ∷ s) ≡ b ++ (b'/' ∷ t)
    → (a ≡ b) × (s ≡ t)
before_slash [] [] s t la lb h = (refl, cc h)
before_slash [] (y ∷ b) s t la lb h = ground arith
before_slash (x ∷ a) [] s t la lb h = ground arith
before_slash (x ∷ a) (y ∷ b) s t la lb h = ground (arith, before_slash a b s t la.1 lb.1)

module _ (dir ns ns' name name' : Text) (no_slash : Lacks b'/' ns)
    (no_slash' : Lacks b'/' ns') where
  -- The path tells the namespace and the name, if no namespace has a slash.
  pub yaml_path_injective :
      dir ++ yaml_path ns name ≡ dir ++ yaml_path ns' name' → (ns ≡ ns') × (name ≡ name')
  unfolding yaml_path
  yaml_path_injective h =
      let (same_ns, same_file) =
        before_slash ns ns' (name ++ codes ".yaml") (name' ++ codes ".yaml") no_slash no_slash'
          (append_cancel dir _ _ h) in
      (
        same_ns,
        sym (trim_suffix-append name (codes ".yaml"))
            ∙ ap (λ f. trim_suffix f (codes ".yaml")) same_file
            ∙ trim_suffix-append name' (codes ".yaml"),
      )

-- ===== src/Rbac/Config.antt =====
-- The Istio resources that the controllers keep, and `Item`, `Equal` and the keyed map of
-- pkg/istio/rbac/common/util.go.
pub mod Keys
use k8s_athenz_istio_auth.Prelude.{Bool, ◌&&◌, List, [], ◌∷◌, Option}
use k8s_athenz_istio_auth.Prelude.Text.{Text, same}
use k8s_athenz_istio_auth.Prelude.Keyed.{Keyed, insert}

-- The fields of Istio's `model.ConfigMeta` that the program reads or writes.
pub record ConfigMeta : Type 0 where
  pub type : Text
  pub group : Text
  pub version : Text
  pub namespace : Text
  pub name : Text
  pub resource_version : Text
  pub annotations : Keyed Text

-- Istio's `model.Config` over a type of specifications.
pub record Config (S : Type 0) : Type 0 where
  pub meta : ConfigMeta
  pub spec : S

-- What Istio gives: `Config.Key`, and `proto.Equal` on specifications.
pub record ConfigApi (S : Type 0) : Type 0 where
  pub key : ConfigMeta → Text
  pub spec_equal : S → S → Bool

-- Istio's `model.Event`
pub data Event : Type 0 where
  event_add event_update event_delete : Event

-- The errors of the API server that the callbacks tell apart (`apiErrors.IsNotFound` and so on).
pub data ApiError : Type 0 where
  not_found already_exists conflict other_error : ApiError

-- What a callback leaves to do: nothing, the processor repeats the item, or the callback puts its
-- controller's key on the queue again.
pub data Retry : Type 0 where
  done repeats_item requeues_key : Retry

-- The callbacks that items carry: the closure of the domain controller over its key, the method of
-- the onboarding controller, and the closure of the authorization policy controller over its key.
pub data OnComplete : Type 0 where
  domain_callback : Text → OnComplete
  onboarding_callback : OnComplete
  policy_callback : Text → OnComplete

-- `Item`
pub record Item (S : Type 0) : Type 0 where
  pub operation : Event
  pub resource : Config S
  pub callback_handler : Option OnComplete

module _ {S : Type 0} (api : ConfigApi S) where
  -- `Config.Key` of a configuration
  abbrev pub config_key : Config S → Text
  config_key c = api.key c.meta

  -- `Equal`
  unfoldable pub equal : Config S → Config S → Bool
  equal c d = same (config_key c) (config_key d) && api.spec_equal c.spec d.spec

  keep_all : Keyed (Config S) → List (Config S) → Keyed (Config S)
  keep_all out [] = out
  keep_all out (c ∷ cs) = keep_all (insert out (config_key c) c) cs

  -- `ConvertSliceToKeyedMap`
  unfoldable pub convert_slice_to_keyed_map : List (Config S) → Keyed (Config S)
  unfolding keep_all
  convert_slice_to_keyed_map configs = keep_all [] configs

-- ===== src/Webhook/Handle.antt =====
-- pkg/webhook/nebulacluster/validating.go: the answer to an admission request. The decoder is a
-- parameter; of a response the code and whether the request is allowed are modelled.
pub mod Admits
use nebula_operator.Common.{
  ℕ, ◌≡◌, ◌≢◌, ◌↔◌, refl, Bool, true, false, Option, none, some, List, [], ◌∷◌, arith,
}
use nebula_operator.Webhook.Cluster.{NebulaCluster, is_delete_protected}
use nebula_operator.Webhook.Validate.{
  ErrorList, Kubernetes, FieldError, Field, validate_create, validate_update, validate_delete,
}

pub data Operation : Type 0 where
  create update delete connect : Operation

pub data Response : Type 0 where
  allowed bad_request unprocessable_entity : Response

-- `raw` is what the decoder reads in the request's object, `old` in its old object; `none` is its
-- error.
pub record Request (Meta : Type 0) (Quantity : Type 0) : Type 0 where
  pub operation : Operation
  pub raw : Option (NebulaCluster Meta Quantity)
  pub old : Option (NebulaCluster Meta Quantity)

abbrev pub respond : ErrorList → Response
respond [] = allowed
respond (e ∷ es) = unprocessable_entity

module _ {Meta : Type 0} {Quantity : Type 0} (kube : Kubernetes Meta Quantity) where
  abbrev pub handle_decoded :
      Operation → NebulaCluster Meta Quantity → Option (NebulaCluster Meta Quantity) → Response
  handle_decoded create obj old = respond (validate_create obj)
  handle_decoded delete obj old = respond (validate_delete obj)
  handle_decoded connect obj old = allowed
  handle_decoded update obj none = bad_request
  handle_decoded update obj (some old) = respond (validate_update kube obj old)

  abbrev pub decode :
      Operation
      → Option (NebulaCluster Meta Quantity)
      → Option (NebulaCluster Meta Quantity)
      → Option (NebulaCluster Meta Quantity)
  decode delete raw old = old
  decode _ raw old = raw

  -- `Handle`
  unfoldable pub handle : Request Meta Quantity → Response
  handle req = elim (decode req.operation req.raw req.old) [
    | none ↦ bad_request
    | some obj ↦ handle_decoded req.operation obj req.old
  ]

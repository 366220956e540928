-- ===== src/Webhook/Handle/Admits.antt =====
-- pkg/webhook/nebulacluster/validating.go: which requests are allowed.
use nebula_operator.Common.{
  ◌≡◌, ◌↔◌, refl, Bool, true, false, Option, none, some, [], ◌∷◌, arith, if◌then◌else◌,
}
use nebula_operator.Webhook.Cluster.{NebulaCluster, is_delete_protected}
use nebula_operator.Webhook.Validate.{ErrorList, Kubernetes, FieldError, Field, validate_delete}
use nebula_operator.Webhook.Validate.Accepts.{
  HasReplicas, UpdateAllowed, validate_create_empty, validate_update_empty,
}
use nebula_operator.Webhook.Handle.{
  Operation, create, update, delete, connect, Response, allowed, bad_request, Request, respond,
  handle,
}

respond_allowed : (es : ErrorList) → (respond es ≡ allowed) ↔ (es ≡ [])
respond_allowed [] = (λ _. refl, λ _. refl)
respond_allowed (e ∷ es) = (λ h. absurd (ground arith), λ h. absurd (ground arith))

module _ {Meta : Type 0} {Quantity : Type 0} (kube : Kubernetes Meta Quantity) where
  -- The requests to allow.
  abbrev pub Admitted :
      Operation
      → Option (NebulaCluster Meta Quantity)
      → Option (NebulaCluster Meta Quantity)
      → Type 0
  Admitted create (some obj) old = HasReplicas obj
  Admitted update (some obj) (some old) = UpdateAllowed kube obj old
  Admitted delete raw (some old) = is_delete_protected old ≡ false
  Admitted connect (some obj) old = Unit
  Admitted _ _ _ = ⊥

  both : {P Q R : Type 0} → P ↔ Q → Q ↔ R → P ↔ R
  both f g = (λ p. g.0 (f.0 p), λ r. f.1 (g.1 r))

  validate_delete_empty :
      (obj : NebulaCluster Meta Quantity)
      → (validate_delete obj ≡ []) ↔ (is_delete_protected obj ≡ false)
  unfolding validate_delete
  validate_delete_empty obj = by_protection (is_delete_protected obj)
    where
      by_protection :
          (b : Bool)
          → ((if b then FieldError.forbidden Field.annotations ∷ [] else []) ≡ []) ↔ (b ≡ false)
      by_protection true = (λ h. absurd (ground arith), λ h. absurd (ground arith))
      by_protection false = (λ _. refl, λ _. refl)

  never : {b : Response} → b ≡ bad_request → (b ≡ allowed) ↔ ⊥
  never e = (λ h. ground arith, λ h. absurd h)

  handle_decided :
      (op : Operation) (raw old : Option (NebulaCluster Meta Quantity))
      → (handle kube (record { operation = op; raw = raw; old = old }) ≡ allowed)
        ↔ Admitted op raw old
  unfolding handle
  handle_decided create none old = never refl
  handle_decided create (some obj) old = both (respond_allowed _) (validate_create_empty obj)
  handle_decided update none old = never refl
  handle_decided update (some obj) none = never refl
  handle_decided update (some obj) (some old) =
      both (respond_allowed _) (validate_update_empty kube obj old)
  handle_decided delete raw none = never refl
  handle_decided delete raw (some obj) = both (respond_allowed _) (validate_delete_empty obj)
  handle_decided connect none old = never refl
  handle_decided connect (some obj) old = (λ _. tt, λ _. refl)

  -- A request is allowed exactly if it is decoded and: a created cluster has the replicas that it may
  -- have; an updated one has them too and every condition of an update holds; a deleted one is
  -- not protected by its annotation.
  pub handle_allowed :
      (req : Request Meta Quantity)
      → (handle kube req ≡ allowed) ↔ Admitted req.operation req.raw req.old
  handle_allowed req = handle_decided req.operation req.raw req.old

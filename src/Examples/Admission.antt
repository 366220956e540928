-- ===== src/Examples/Admission.antt =====
-- Admission requests for a cluster with three pods of each kind, in the mode ha-mode, with one volume
-- of which the size is a number.
use nebula_operator.Common.{
  ℕ, ◌≡◌, ◌↔◌, none, some, Option, List, [], ◌∷◌, ltb, ◌==◌, same, if◌then◌else◌,
}
use nebula_operator.Webhook.Cluster.{
  NebulaCluster, Phase, AnnotationKey, ha_mode, delete_protection, true_val,
}
use nebula_operator.Webhook.Validate.{
  Kubernetes, less, equal, greater, Field, FieldError, validate_create, validate_update,
}
use nebula_operator.Webhook.Validate.Accepts.{
  HasReplicas, UpdateAllowed, validate_create_empty, validate_update_empty,
}
use nebula_operator.Webhook.Handle.{Request, update, allowed, handle}
use nebula_operator.Webhook.Handle.Admits.{Admitted, handle_allowed}

abbrev kube : Kubernetes (Unit {0}) ℕ
kube = record {
  validate_object_meta_update = λ _ _. [];
  validate_immutable_annotation =
      λ new old. if same new old then [] else FieldError.invalid Field.annotations ∷ [];
  validate_immutable_field =
      λ new old. if new == old then [] else FieldError.invalid Field.metad_replicas ∷ [];
  cmp = λ a b. if ltb a b then less else (if ltb b a then greater else equal);
}

abbrev annotation : AnnotationKey → Option (List ℕ)
annotation ha_mode = some true_val
annotation delete_protection = none

abbrev cluster_of : ℕ → NebulaCluster (Unit {0}) ℕ
cluster_of size = record {
  metadata = tt;
  annotations = annotation;
  graphd_replicas = 3;
  metad_replicas = 3;
  storaged_replicas = 3;
  data_volume_claims = size ∷ [];
  storaged_phase = Phase.running;
}

validate_create_empty_example : (validate_create (cluster_of 10) ≡ []) ↔ HasReplicas (cluster_of 10)
validate_create_empty_example = validate_create_empty (cluster_of 10)

validate_update_empty_example :
    (validate_update kube (cluster_of 5) (cluster_of 10) ≡ [])
    ↔ UpdateAllowed kube (cluster_of 5) (cluster_of 10)
validate_update_empty_example = validate_update_empty kube (cluster_of 5) (cluster_of 10)

abbrev request : Request (Unit {0}) ℕ
request = record { operation = update; raw = some (cluster_of 20); old = some (cluster_of 10) }

handle_allowed_example :
    (handle kube request ≡ allowed)
    ↔ Admitted kube update (some (cluster_of 20)) (some (cluster_of 10))
handle_allowed_example = handle_allowed kube request

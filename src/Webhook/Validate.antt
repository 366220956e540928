-- ===== src/Webhook/Validate.antt =====
-- pkg/webhook/nebulacluster/helper.go and pkg/webhook/util/validation: the errors that the
-- validation of a NebulaCluster lists. What it calls of Kubernetes is a parameter: the validation of
-- the metadata and of an immutable annotation, and the comparison of two quantities. A field error is
-- its field and its kind; its message is not modelled.
pub mod Accepts
use nebula_operator.Common.{
  ℕ, ◌%◌, Bool, true, false, not, ◌&&◌, ◌||◌, Option, none, some, List, [], ◌∷◌, ◌++◌, ltb, ◌==◌,
  length, if◌then◌else◌,
}
use nebula_operator.Webhook.Cluster.{
  NebulaCluster, Phase, running, scale_in, scale_out, AnnotationKey, ha_mode, is_in_ha_mode,
  is_delete_protected, value_of,
}

pub data Field : Type 0 where
  metadata annotations graphd_replicas metad_replicas storaged storaged_replicas
        data_volume_claims :
      Field

pub data FieldError : Type 0 where
  invalid forbidden : Field → FieldError

abbrev pub ErrorList : Type 0
ErrorList = List FieldError

-- `ValidateMinReplicas`
unfoldable pub validate_min_replicas : Field → ℕ → ℕ → ErrorList
validate_min_replicas field actual_value min_value =
    if ltb actual_value min_value then invalid field ∷ [] else []

abbrev pub min_replicas : Bool → ℕ → ℕ → ℕ
min_replicas ha in_ha not_in_ha = if ha then in_ha else not_in_ha

unfoldable pub validate_min_replicas_graphd : ℕ → Bool → ErrorList
unfolding validate_min_replicas
validate_min_replicas_graphd replicas ha =
    validate_min_replicas Field.graphd_replicas replicas (min_replicas ha 2 1)

unfoldable pub validate_min_replicas_metad : ℕ → Bool → ErrorList
unfolding validate_min_replicas
validate_min_replicas_metad replicas ha =
    validate_min_replicas Field.metad_replicas replicas (min_replicas ha 3 1)
    ++ (if replicas % 2 == 0 then invalid Field.metad_replicas ∷ [] else [])

unfoldable pub validate_min_replicas_storaged : ℕ → Bool → ErrorList
unfolding validate_min_replicas
validate_min_replicas_storaged replicas ha =
    validate_min_replicas Field.storaged_replicas replicas (min_replicas ha 3 1)

-- `Cmp(…) == -1`
pub data Ordering : Type 0 where
  less equal greater : Ordering

abbrev pub is_less : Ordering → Bool
is_less less = true
is_less _ = false

abbrev pub is_running : Phase → Bool
is_running running = true
is_running _ = false

abbrev pub is_scaling : Phase → Bool
is_scaling scale_in = true
is_scaling scale_out = true
is_scaling _ = false

-- What the validation calls of Kubernetes.
pub record Kubernetes (Meta : Type 0) (Quantity : Type 0) : Type 0 where
  pub validate_object_meta_update : Meta → Meta → ErrorList
  pub validate_immutable_annotation : List ℕ → List ℕ → ErrorList
  pub validate_immutable_field : ℕ → ℕ → ErrorList
  pub cmp : Quantity → Quantity → Ordering

module _ {Meta : Type 0} {Quantity : Type 0} where
  unfoldable pub validate_graphd : NebulaCluster Meta Quantity → ErrorList
  unfolding validate_min_replicas_graphd
  validate_graphd nc = validate_min_replicas_graphd nc.graphd_replicas (is_in_ha_mode nc)

  unfoldable pub validate_metad : NebulaCluster Meta Quantity → ErrorList
  unfolding validate_min_replicas_metad
  validate_metad nc = validate_min_replicas_metad nc.metad_replicas (is_in_ha_mode nc)

  unfoldable pub validate_storaged : NebulaCluster Meta Quantity → ErrorList
  unfolding validate_min_replicas_storaged
  validate_storaged nc = validate_min_replicas_storaged nc.storaged_replicas (is_in_ha_mode nc)

  unfoldable pub is_nebula_cluster_ha : NebulaCluster Meta Quantity → Bool
  is_nebula_cluster_ha nc =
      if ltb nc.graphd_replicas 2
      then false
      else if ltb nc.metad_replicas 3
      then false
      else not (ltb nc.storaged_replicas 3)

  unfoldable pub validate_create : NebulaCluster Meta Quantity → ErrorList
  unfolding validate_graphd validate_metad validate_storaged
  validate_create nc = validate_graphd nc ++ validate_metad nc ++ validate_storaged nc

  unfoldable pub validate_delete : NebulaCluster Meta Quantity → ErrorList
  validate_delete nc = if is_delete_protected nc then forbidden Field.annotations ∷ [] else []

module _ {Meta : Type 0} {Quantity : Type 0} (kube : Kubernetes Meta Quantity) where
  -- The loop over the claims, both lists having the same length; a claim with no old one would be an
  -- index out of range, which the test of the lengths excludes.
  unfoldable pub validate_volumes : List Quantity → List Quantity → ErrorList
  validate_volumes (pvc ∷ pvcs) (old ∷ olds) =
      (if is_less (kube.cmp pvc old) then invalid Field.data_volume_claims ∷ [] else [])
      ++ validate_volumes pvcs olds
  validate_volumes [] (_ ∷ _) = []
  validate_volumes _ [] = []

  unfoldable pub validate_update_storaged_data_volume :
      NebulaCluster Meta Quantity → NebulaCluster Meta Quantity → ErrorList
  unfolding validate_volumes
  validate_update_storaged_data_volume nc old =
      if not (length nc.data_volume_claims == length old.data_volume_claims)
      then forbidden Field.data_volume_claims ∷ []
      else validate_volumes nc.data_volume_claims old.data_volume_claims

  unfoldable pub validate_update_metad :
      NebulaCluster Meta Quantity → NebulaCluster Meta Quantity → ErrorList
  unfolding validate_metad
  validate_update_metad nc old =
      kube.validate_immutable_field nc.metad_replicas old.metad_replicas ++ validate_metad nc

  abbrev pub scaling_errors : NebulaCluster Meta Quantity → ErrorList
  scaling_errors old = if is_scaling old.storaged_phase then forbidden Field.storaged ∷ [] else []

  abbrev pub changed_errors : NebulaCluster Meta Quantity → NebulaCluster Meta Quantity → ErrorList
  changed_errors nc old =
      if not (is_running nc.storaged_phase) && not (nc.storaged_replicas == old.storaged_replicas)
      then invalid Field.storaged_replicas ∷ []
      else []

  unfoldable pub validate_update_storaged :
      NebulaCluster Meta Quantity → NebulaCluster Meta Quantity → ErrorList
  unfolding validate_update_storaged_data_volume validate_storaged
  validate_update_storaged nc old =
      scaling_errors old
      ++ changed_errors nc old
      ++ validate_update_storaged_data_volume nc old
      ++ validate_storaged nc

  unfoldable pub ha_mode_errors :
      NebulaCluster Meta Quantity → NebulaCluster Meta Quantity → ErrorList
  unfolding is_nebula_cluster_ha
  ha_mode_errors nc old =
      if not (is_nebula_cluster_ha old)
      then kube.validate_immutable_annotation (value_of (nc.annotations ha_mode))
          (value_of (old.annotations ha_mode))
      else []

  unfoldable pub validate_update :
      NebulaCluster Meta Quantity → NebulaCluster Meta Quantity → ErrorList
  unfolding validate_graphd validate_update_metad validate_update_storaged ha_mode_errors
  validate_update nc old =
      kube.validate_object_meta_update nc.metadata old.metadata
      ++ ha_mode_errors nc old
      ++ validate_graphd nc
      ++ validate_update_metad nc old
      ++ validate_update_storaged nc old

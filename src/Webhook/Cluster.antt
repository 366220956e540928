-- ===== src/Webhook/Cluster.antt =====
-- apis/apps/v1alpha1/nebulacluster_types.go and apis/pkg/annotation/annotation.go: what the
-- admission webhook reads of a NebulaCluster. Numbers of replicas are at least 0 (the schema asks for
-- 1), the object's metadata is `Meta`, a claimed storage size `Quantity`, and a text is its bytes.
use nebula_operator.Common.{ℕ, Bool, false, Option, none, some, List, [], ◌∷◌, same}

pub data Phase : Type 0 where
  running scale_in scale_out other : Phase

-- The keys of the annotations that the webhook reads: ha-mode and delete-protection.
pub data AnnotationKey : Type 0 where
  ha_mode delete_protection : AnnotationKey

pub record NebulaCluster (Meta : Type 0) (Quantity : Type 0) : Type 0 where
  pub metadata : Meta
  pub annotations : AnnotationKey → Option (List ℕ)
  pub graphd_replicas : ℕ
  pub metad_replicas : ℕ
  pub storaged_replicas : ℕ
  pub data_volume_claims : List Quantity
  pub storaged_phase : Phase

-- `val, ok := ann[key]; ok && val == "true"`
abbrev pub true_val : List ℕ
true_val = 116 ∷ 114 ∷ 117 ∷ 101 ∷ []

abbrev pub is_true_val : Option (List ℕ) → Bool
is_true_val none = false
is_true_val (some val) = same val true_val

-- `ann[key]`, with the empty text where it is missing.
abbrev pub value_of : Option (List ℕ) → List ℕ
value_of none = []
value_of (some val) = val

module _ {Meta : Type 0} {Quantity : Type 0} where
  abbrev pub is_in_ha_mode : NebulaCluster Meta Quantity → Bool
  is_in_ha_mode nc = is_true_val (nc.annotations ha_mode)

  abbrev pub is_delete_protected : NebulaCluster Meta Quantity → Bool
  is_delete_protected nc = is_true_val (nc.annotations delete_protection)

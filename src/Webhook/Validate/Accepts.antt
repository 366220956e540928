-- ===== src/Webhook/Validate/Accepts.antt =====
-- pkg/webhook/nebulacluster/helper.go: when the validation of a NebulaCluster lists no error.
use nebula_operator.Common.{
  ℕ, ◌%◌, ◌≤◌, ◌≡◌, ◌≢◌, ◌↔◌, ◌⊎◌, inl, inr, refl, ap, ◌∙◌, Bool, true, false, not, ◌&&◌, List, [],
  ◌∷◌, ◌++◌, arith, ltb, ◌==◌, ==_iff, length, Bool-cases, if◌then◌else◌,
}
use nebula_operator.Webhook.Cluster.{NebulaCluster, ha_mode, is_in_ha_mode, value_of}
use nebula_operator.Webhook.Validate.{
  Field, FieldError, ErrorList, Kubernetes, is_less, is_running, scaling_errors, changed_errors,
  ha_mode_errors, is_scaling, min_replicas, validate_min_replicas, validate_min_replicas_graphd,
  validate_min_replicas_metad, validate_min_replicas_storaged, validate_graphd, validate_metad,
  validate_storaged, is_nebula_cluster_ha, validate_create, validate_volumes,
  validate_update_storaged_data_volume, validate_update_metad, validate_update_storaged,
  validate_update,
}

-- Two lists of errors are empty together.
append_empty : (xs ys : ErrorList) → xs ++ ys ≡ [] → (xs ≡ []) × (ys ≡ [])
append_empty [] ys h = (refl, h)
append_empty (x ∷ xs) ys h = absurd (ground arith)

empty_append : (xs ys : ErrorList) → xs ≡ [] → ys ≡ [] → xs ++ ys ≡ []
empty_append xs ys h k = ap (λ (l : ErrorList). l ++ ys) h ∙ k

if_empty : (b : Bool) (e : FieldError) → ((if b then e ∷ [] else []) ≡ []) ↔ (b ≡ false)
if_empty true e = (λ h. absurd (ground arith), λ h. absurd (ground arith))
if_empty false e = (λ _. refl, λ _. refl)

validate_min_replicas_empty :
    (field : Field) (n m : ℕ) → (validate_min_replicas field n m ≡ []) ↔ (m ≤ n)
unfolding validate_min_replicas
validate_min_replicas_empty field n m = (
  λ h. let k = (if_empty (ltb n m) (FieldError.invalid field)).0 h in ground arith,
  λ h. (if_empty (ltb n m) (FieldError.invalid field)).1 (ground arith),
)

validate_min_replicas_metad_empty :
    (n : ℕ) (ha : Bool)
    → (validate_min_replicas_metad n ha ≡ []) ↔ ((min_replicas ha 3 1 ≤ n) × (n % 2 ≢ 0))
unfolding validate_min_replicas_metad
validate_min_replicas_metad_empty n ha = (
  λ h.
      let (p, q) =
        append_empty (validate_min_replicas Field.metad_replicas n (min_replicas ha 3 1)) _ h in
      (
        (validate_min_replicas_empty Field.metad_replicas n (min_replicas ha 3 1)).0 p,
        (let k = (if_empty (n % 2 == 0) (FieldError.invalid Field.metad_replicas)).0 q in
            ground arith),
      ),
  λ h.
      empty_append (validate_min_replicas Field.metad_replicas n (min_replicas ha 3 1)) _
        ((validate_min_replicas_empty Field.metad_replicas n (min_replicas ha 3 1)).1 h.0)
        ((if_empty (n % 2 == 0) (FieldError.invalid Field.metad_replicas)).1
          (let odd = h.1 in ground arith)),
)

module _ {Meta : Type 0} {Quantity : Type 0} where
  -- The replicas that a cluster may have: an odd number of meta pods, and with the annotation ha-mode
  -- at least two graph pods and three of the others.
  abbrev pub HasReplicas : NebulaCluster Meta Quantity → Type 0
  HasReplicas nc =
      (min_replicas (is_in_ha_mode nc) 2 1 ≤ nc.graphd_replicas)
      × ((min_replicas (is_in_ha_mode nc) 3 1 ≤ nc.metad_replicas) × (nc.metad_replicas % 2 ≢ 0))
      × (min_replicas (is_in_ha_mode nc) 3 1 ≤ nc.storaged_replicas)

  replicas_of :
      (nc : NebulaCluster Meta Quantity)
      → validate_graphd nc ≡ []
      → validate_metad nc ≡ []
      → validate_storaged nc ≡ []
      → HasReplicas nc
  unfolding validate_graphd validate_metad validate_storaged validate_min_replicas_graphd
      validate_min_replicas_storaged
  replicas_of nc g m s = (
    (validate_min_replicas_empty _ _ _).0 g,
    (validate_min_replicas_metad_empty _ _).0 m,
    (validate_min_replicas_empty _ _ _).0 s,
  )

  of_replicas :
      (nc : NebulaCluster Meta Quantity)
      → HasReplicas nc
      → (validate_graphd nc ≡ []) × (validate_metad nc ≡ []) × (validate_storaged nc ≡ [])
  unfolding validate_graphd validate_metad validate_storaged validate_min_replicas_graphd
      validate_min_replicas_storaged
  of_replicas nc (g, m, s) = (
    (validate_min_replicas_empty _ _ _).1 g,
    (validate_min_replicas_metad_empty _ _).1 m,
    (validate_min_replicas_empty _ _ _).1 s,
  )

  -- The creation of a cluster lists no error exactly if it has the replicas that it may have.
  pub validate_create_empty :
      (nc : NebulaCluster Meta Quantity) → (validate_create nc ≡ []) ↔ HasReplicas nc
  unfolding validate_create validate_min_replicas_graphd validate_min_replicas_storaged
  validate_create_empty nc = (
    λ h.
        let (gm, s) =
          append_empty (validate_graphd nc ++ validate_metad nc) (validate_storaged nc) h in
        let (g, m) = append_empty (validate_graphd nc) (validate_metad nc) gm in
        replicas_of nc g m s,
    λ h.
        let (g, m, s) = of_replicas nc h in
        empty_append (validate_graphd nc ++ validate_metad nc) (validate_storaged nc)
          (empty_append (validate_graphd nc) (validate_metad nc) g m) s,
  )

module _ {Meta : Type 0} {Quantity : Type 0} (kube : Kubernetes Meta Quantity) where
  -- No claim is smaller than the old one at its place, and no claim is added or taken away.
  abbrev pub NotSmaller : List Quantity → List Quantity → Type 0
  NotSmaller [] [] = Unit
  NotSmaller (pvc ∷ pvcs) (old ∷ olds) = (is_less (kube.cmp pvc old) ≡ false) × NotSmaller pvcs olds
  NotSmaller _ _ = ⊥

  validate_volumes_empty :
      (pvcs olds : List Quantity)
      → length pvcs ≡ length olds
      → (validate_volumes kube pvcs olds ≡ []) ↔ NotSmaller pvcs olds
  unfolding validate_volumes
  validate_volumes_empty [] [] e = (λ _. tt, λ _. refl)
  validate_volumes_empty [] (old ∷ olds) e = absurd (ground arith)
  validate_volumes_empty (pvc ∷ pvcs) [] e = absurd (ground arith)
  validate_volumes_empty (pvc ∷ pvcs) (old ∷ olds) e =
      let rest = validate_volumes_empty pvcs olds (ground arith) in
      (
        λ h.
            let (p, q) =
              append_empty (if is_less (kube.cmp pvc old) then _ else [])
                (validate_volumes kube pvcs olds) h in
            ((if_empty (is_less (kube.cmp pvc old)) _).0 p, rest.0 q),
        λ (p, q).
            empty_append _ (validate_volumes kube pvcs olds)
              ((if_empty (is_less (kube.cmp pvc old)) _).1 p) (rest.1 q),
      )

  NotSmaller-length : (pvcs olds : List Quantity) → NotSmaller pvcs olds → length pvcs ≡ length olds
  NotSmaller-length [] [] h = refl
  NotSmaller-length [] (old ∷ olds) h = absurd h
  NotSmaller-length (pvc ∷ pvcs) [] h = absurd h
  NotSmaller-length (pvc ∷ pvcs) (old ∷ olds) h = omega (arith, NotSmaller-length pvcs olds h.1)

  validate_update_storaged_data_volume_empty :
      (nc old : NebulaCluster Meta Quantity)
      → (validate_update_storaged_data_volume kube nc old ≡ [])
        ↔ NotSmaller nc.data_volume_claims old.data_volume_claims
  unfolding validate_update_storaged_data_volume
  validate_update_storaged_data_volume_empty nc old =
      elim (Bool-cases (length nc.data_volume_claims == length old.data_volume_claims)) [
        | inl e ↦
            let volumes =
              validate_volumes_empty nc.data_volume_claims old.data_volume_claims
                ((==_iff _ _).0 e) in
            (λ h. volumes.0 (rw e at h), λ h. rw e (volumes.1 h))
        | inr e ↦ (
          λ h. absurd (let k = rw e at h in ground arith),
          λ h. absurd (let k = NotSmaller-length _ _ h in ground arith),
        )
      ]

  -- What an update of the storage component may be.
  abbrev pub StoragedUpdate : NebulaCluster Meta Quantity → NebulaCluster Meta Quantity → Type 0
  StoragedUpdate nc old =
      (is_scaling old.storaged_phase ≡ false)
      × ((is_running nc.storaged_phase ≡ true) ⊎ (nc.storaged_replicas ≡ old.storaged_replicas))
      × NotSmaller nc.data_volume_claims old.data_volume_claims

  changed_while_not_running :
      (r : Bool) (n m : ℕ) → ((not r && not (n == m)) ≡ false) ↔ ((r ≡ true) ⊎ (n ≡ m))
  changed_while_not_running true n m = (λ _. inl refl, λ _. refl)
  changed_while_not_running false n m = (
    λ h. inr (ground arith),
    λ h. elim h [ inl k ↦ absurd (ground arith) | inr k ↦ ground arith ],
  )

  validate_update_storaged_empty :
      (nc old : NebulaCluster Meta Quantity)
      → (validate_update_storaged kube nc old ≡ [])
        ↔ (StoragedUpdate nc old × (validate_storaged nc ≡ []))
  unfolding validate_update_storaged
  validate_update_storaged_empty nc old =
      let scaling =
        if_empty (is_scaling old.storaged_phase) (FieldError.forbidden Field.storaged) in
      let changing =
        if_empty
          (not (is_running nc.storaged_phase)
            && not (nc.storaged_replicas == old.storaged_replicas))
          (FieldError.invalid Field.storaged_replicas) in
      let volumes = validate_update_storaged_data_volume_empty nc old in
      let either =
        changed_while_not_running (is_running nc.storaged_phase) nc.storaged_replicas
          old.storaged_replicas in
      (
        λ h.
            let (h1, s) =
              append_empty
                (scaling_errors kube old
                  ++ changed_errors kube nc old
                  ++ validate_update_storaged_data_volume kube nc old)
                (validate_storaged nc) h in
            let (h2, v) =
              append_empty (scaling_errors kube old ++ changed_errors kube nc old)
                (validate_update_storaged_data_volume kube nc old) h1 in
            let (p, q) = append_empty (scaling_errors kube old) (changed_errors kube nc old) h2 in
            ((scaling.0 p, either.0 (changing.0 q), volumes.0 v), s),
        λ ((p, q, v), s).
            empty_append
              (scaling_errors kube old
                ++ changed_errors kube nc old
                ++ validate_update_storaged_data_volume kube nc old)
              (validate_storaged nc)
              (empty_append (scaling_errors kube old ++ changed_errors kube nc old)
                (validate_update_storaged_data_volume kube nc old)
                (empty_append (scaling_errors kube old) (changed_errors kube nc old) (scaling.1 p)
                  (changing.1 (either.1 q)))
                (volumes.1 v))
              s,
      )

  unless_ha :
      (b : Bool) (l : ErrorList) → ((if not b then l else []) ≡ []) ↔ ((b ≡ true) ⊎ (l ≡ []))
  unless_ha true l = (λ _. inl refl, λ _. refl)
  unless_ha false l = (λ h. inr h, λ h. elim h [ inl k ↦ absurd (ground arith) | inr k ↦ k ])

  ha_mode_errors_empty :
      (nc old : NebulaCluster Meta Quantity)
      → (ha_mode_errors kube nc old ≡ []) ↔ (
          (is_nebula_cluster_ha old ≡ true)
          ⊎ (kube.validate_immutable_annotation
                (value_of (nc.annotations ha_mode))
                (value_of (old.annotations ha_mode))
              ≡ []))
  unfolding ha_mode_errors
  ha_mode_errors_empty nc old = unless_ha (is_nebula_cluster_ha old) _

  abbrev pub UpdateAllowed : NebulaCluster Meta Quantity → NebulaCluster Meta Quantity → Type 0
  UpdateAllowed nc old =
      (kube.validate_object_meta_update nc.metadata old.metadata ≡ [])
      × ((is_nebula_cluster_ha old ≡ true)
          ⊎ (kube.validate_immutable_annotation (value_of (nc.annotations ha_mode))
                (value_of (old.annotations ha_mode))
              ≡ []))
      × (kube.validate_immutable_field nc.metad_replicas old.metad_replicas ≡ [])
      × HasReplicas nc
      × StoragedUpdate nc old

  -- An update of a cluster lists no error exactly if Kubernetes accepts the metadata, the old cluster
  -- is large enough for the annotation ha-mode to change or Kubernetes accepts the annotation,
  -- Kubernetes accepts the number of meta pods, the cluster has the replicas that it may have, the
  -- old cluster is not scaling, the storage pods' number is the old one unless the phase is Running,
  -- and no data volume shrinks, is added or is taken away.
  pub validate_update_empty :
      (nc old : NebulaCluster Meta Quantity)
      → (validate_update kube nc old ≡ []) ↔ UpdateAllowed nc old
  unfolding validate_update validate_update_metad
  validate_update_empty nc old =
      let a = kube.validate_object_meta_update nc.metadata old.metadata in
      let b = ha_mode_errors kube nc old in
      let g = validate_graphd nc in
      let m = validate_update_metad kube nc old in
      let s = validate_update_storaged kube nc old in
      let f = kube.validate_immutable_field nc.metad_replicas old.metad_replicas in
      (
        λ h.
            let (abgm, hs) = append_empty (a ++ b ++ g ++ m) s h in
            let (abg, hm) = append_empty (a ++ b ++ g) m abgm in
            let (ab, hg) = append_empty (a ++ b) g abg in
            let (ha, hb) = append_empty a b ab in
            let (hf, hmm) = append_empty f (validate_metad nc) hm in
            let (up, hss) = (validate_update_storaged_empty nc old).0 hs in
            (ha, (ha_mode_errors_empty nc old).0 hb, hf, replicas_of nc hg hmm hss, up),
        λ (ha, hb, hf, r, up).
            let (hg, hmm, hss) = of_replicas nc r in
            empty_append (a ++ b ++ g ++ m) s
              (empty_append (a ++ b ++ g) m
                (empty_append (a ++ b) g (empty_append a b ha ((ha_mode_errors_empty nc old).1 hb))
                  hg)
                (empty_append f (validate_metad nc) hf hmm))
              ((validate_update_storaged_empty nc old).1 (up, hss)),
      )

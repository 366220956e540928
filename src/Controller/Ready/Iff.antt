-- ===== src/Controller/Ready/Iff.antt =====
-- pkg/controller/nebulacluster/nebula_cluster_condition_updater.go: what the condition Ready says.
use nebula_operator.Common.{
  ℕ, ◌≡◌, ◌↔◌, refl, sym, ap, ◌∙◌, Bool, true, false, not, ◌&&◌, Option, none, some, arith, ◌==◌,
  ==_iff, if◌then◌else◌,
}
use nebula_operator.Condition.Status.{
  ConditionStatus, condition_true, Condition, is_status, holds, get_condition, is_condition_true,
}
use nebula_operator.Condition.Laws.{SetTo, get_condition-set_condition}
use nebula_operator.Controller.Ready.{
  NebulaCluster, WorkloadStatus, Reason, workload_ready, ready_reason, ready_status, reason_text,
  update_ready_condition, is_condition_ready, is_component_ready, is_storaged_available,
  all_workloads_are_up_to_date, all_volumes_are_provisioned_done, nebula_cluster_ready,
  workload_ready_for, is_up_to_date, is_provisioned,
}

-- The workload has a status, in which all replicas are ready, updated and of the current revision.
abbrev pub Up : ℕ → Option WorkloadStatus → Type 0
Up replicas none = ⊥
Up replicas (some w) =
    (w.ready_replicas ≡ replicas)
    × (w.replicas ≡ replicas)
    × (w.updated_replicas ≡ replicas)
    × (w.current_replicas ≡ replicas)
    × (w.current_revision ≡ w.update_revision)

-- The volume has no status, or it is provisioned.
abbrev pub Provisioned : Option Bool → Type 0
Provisioned none = Unit
Provisioned (some done) = done ≡ true

-- Every part of the cluster is as it should be.
abbrev pub Healthy : NebulaCluster → Type 0
Healthy nc =
    (Up nc.metad.spec_replicas nc.metad.workload
      × Up nc.storaged.spec_replicas nc.storaged.workload
      × Up nc.graphd.spec_replicas nc.graphd.workload)
    × ((nc.balanced_spaces_nil ≡ true)
        × (nc.removed_spaces_nil ≡ true)
        × (nc.last_balance_job_nil ≡ true)
        × (nc.failure_hosts_nil ≡ true))
    × (Provisioned nc.metad.volume_done
        × Provisioned nc.storaged.volume_done
        × Provisioned nc.graphd.volume_done)

set_status :
    (o : Option Condition) (condition d : Condition)
    → SetTo o condition d
    → d.status ≡ condition.status
set_status none condition d h = ap (λ (c : Condition). c.status) h
set_status (some current) condition d h = h.0

-- A switch over five tests.
first_case :
    (a b c d e : Bool)
    → (is_status
          (ready_status (
            if not a
            then Reason.workload_not_up_to_date
            else if not b
            then Reason.metad_unhealthy
            else if not c
            then Reason.storaged_unhealthy
            else if not d
            then Reason.graphd_unhealthy
            else if not e
            then Reason.volume_not_provisioning
            else workload_ready))
          condition_true
        ≡ true)
      ↔ ((a ≡ true) × (b ≡ true) × (c ≡ true) × (d ≡ true) × (e ≡ true))
first_case false b c d e = (λ h. absurd (ground arith), λ h. absurd (ground arith))
first_case true false c d e = (λ h. absurd (ground arith), λ h. absurd (ground arith))
first_case true true false d e = (λ h. absurd (ground arith), λ h. absurd (ground arith))
first_case true true true false e = (λ h. absurd (ground arith), λ h. absurd (ground arith))
first_case true true true true false = (λ h. absurd (ground arith), λ h. absurd (ground arith))
first_case true true true true true = (λ h. (refl, refl, refl, refl, refl), λ h. refl)

and_true : (a b : Bool) → (a && b) ≡ true → (a ≡ true) × (b ≡ true)
and_true true b h = (refl, h)
and_true false b h = absurd (ground arith)

true_and : (a b : Bool) → a ≡ true → b ≡ true → (a && b) ≡ true
true_and a b h k = rw h k

-- A component that is ready is up to date.
ready-Up :
    (replicas : ℕ) (o : Option WorkloadStatus)
    → workload_ready_for replicas o ≡ true
    → Up replicas o
ready-Up replicas none h = absurd (ground arith)
ready-Up replicas (some w) h =
    let (h0, h1) = and_true (replicas == w.ready_replicas) _ h in
    let (h2, h3) = and_true (w.updated_replicas == w.replicas) _ h1 in
    let (h4, h5) = and_true (w.ready_replicas == w.replicas) _ h3 in
    let (h6, h7) = and_true (w.current_replicas == w.updated_replicas) _ h5 in
    let ready = (==_iff replicas w.ready_replicas).0 h0 in
    let same = (==_iff w.ready_replicas w.replicas).0 h4 in
    let updated = (==_iff w.updated_replicas w.replicas).0 h2 in
    let current = (==_iff w.current_replicas w.updated_replicas).0 h6 in
    let revision = (==_iff w.current_revision w.update_revision).0 h7 in
    (
      sym ready,
      omega (arith, ready, same),
      omega (arith, ready, same, updated),
      omega (arith, ready, same, updated, current),
      revision,
    )

Up-ready :
    (replicas : ℕ) (o : Option WorkloadStatus)
    → Up replicas o
    → (workload_ready_for replicas o ≡ true) × (is_up_to_date o ≡ true)
Up-ready replicas none u = absurd u
Up-ready replicas (some w) (ready, same, updated, current, revision) =
    let a = (==_iff replicas w.ready_replicas).1 (sym ready) in
    let b = (==_iff w.updated_replicas w.replicas).1 (updated ∙ sym same) in
    let c = (==_iff w.ready_replicas w.replicas).1 (ready ∙ sym same) in
    let d = (==_iff w.current_replicas w.updated_replicas).1 (current ∙ sym updated) in
    let e = (==_iff w.current_revision w.update_revision).1 revision in
    (true_and _ _ a (true_and _ _ b (true_and _ _ c (true_and _ _ d e))), e)

is_provisioned-Provisioned : (o : Option Bool) → (is_provisioned o ≡ true) ↔ Provisioned o
is_provisioned-Provisioned none = (λ h. tt, λ h. refl)
is_provisioned-Provisioned (some done) = (λ h. h, λ h. h)

all-Provisioned :
    (a b c : Option Bool)
    → ((is_provisioned a && (is_provisioned b && is_provisioned c)) ≡ true)
      ↔ (Provisioned a × Provisioned b × Provisioned c)
all-Provisioned a b c = (
  λ h.
      let (x, h') = and_true (is_provisioned a) _ h in
      let (y, z) = and_true (is_provisioned b) _ h' in
      (
        (is_provisioned-Provisioned a).0 x,
        (is_provisioned-Provisioned b).0 y,
        (is_provisioned-Provisioned c).0 z,
      ),
  λ (x, y, z).
      true_and _ _ ((is_provisioned-Provisioned a).1 x)
        (true_and _ _ ((is_provisioned-Provisioned b).1 y) ((is_provisioned-Provisioned c).1 z)),
)

ready_reason_iff :
    (nc : NebulaCluster)
    → (is_status (ready_status (ready_reason nc)) condition_true ≡ true) ↔ Healthy nc
unfolding ready_reason
ready_reason_iff nc =
    let cases =
      first_case (all_workloads_are_up_to_date nc) (is_component_ready nc.metad)
        (is_storaged_available nc) (is_component_ready nc.graphd)
        (all_volumes_are_provisioned_done nc) in
    let volumes =
      all-Provisioned nc.metad.volume_done nc.storaged.volume_done nc.graphd.volume_done in
    (
      λ h.
          let (_, m, s, g, v) = cases.0 h in
          let (s0, s1) = and_true (is_component_ready nc.storaged) _ s in
          let (b, s2) = and_true nc.balanced_spaces_nil _ s1 in
          let (r, s3) = and_true nc.removed_spaces_nil _ s2 in
          let (j, f) = and_true nc.last_balance_job_nil _ s3 in
          (
            (
              ready-Up nc.metad.spec_replicas nc.metad.workload m,
              ready-Up nc.storaged.spec_replicas nc.storaged.workload s0,
              ready-Up nc.graphd.spec_replicas nc.graphd.workload g,
            ),
            (b, r, j, f),
            volumes.0 v,
          ),
      λ ((m, s, g), (b, r, j, f), v).
          let (m0, m1) = Up-ready nc.metad.spec_replicas nc.metad.workload m in
          let (s0, s1) = Up-ready nc.storaged.spec_replicas nc.storaged.workload s in
          let (g0, g1) = Up-ready nc.graphd.spec_replicas nc.graphd.workload g in
          cases.1 (
            true_and _ _ m1 (true_and _ _ s1 g1),
            m0,
            true_and _ _ s0 (true_and _ _ b (true_and _ _ r (true_and _ _ j f))),
            g0,
            volumes.1 v,
          ),
    )

-- After `update_ready_condition`, a cluster has the condition Ready exactly if each of the three workloads
-- has a status in which all replicas are ready, updated and of the current revision, no balanced or removed
-- spaces, no balance job and no failure hosts of the storage component are recorded, and every volume with a
-- status is provisioned, whatever conditions it had before.
pub update_ready_condition_iff :
    (now : ℕ) (nc : NebulaCluster)
    → (is_condition_ready (update_ready_condition now nc) ≡ true) ↔ Healthy nc
unfolding is_condition_ready is_condition_true update_ready_condition
update_ready_condition_iff now nc =
    let condition : Condition = record {
      kind = nebula_cluster_ready;
      status = ready_status (ready_reason nc);
      reason = reason_text (ready_reason nc);
      message = reason_text (ready_reason nc);
      last_update_time = now;
      last_transition_time = now;
    } in
    let (d, g, s) = (get_condition-set_condition nc.conditions condition).0 in
    let same =
      ap holds g
      ∙ ap (λ (x : ConditionStatus). is_status x condition_true)
          (set_status (get_condition nc.conditions nebula_cluster_ready) condition d s) in
    (λ h. (ready_reason_iff nc).0 (sym same ∙ h), λ h. same ∙ (ready_reason_iff nc).1 h)

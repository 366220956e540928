-- ===== src/Controller/Ready.antt =====
-- pkg/controller/nebulacluster/nebula_cluster_condition_updater.go, with the tests `IsReady` of
-- apis/apps/v1alpha1/nebulacluster.go and its neighbours: when a cluster is given the condition
-- Ready. Revisions go by numbers. Of the storage component's status the code reads whether
-- fields are nil.
pub mod Iff
use nebula_operator.Common.{
  ℕ, Bool, true, false, not, ◌&&◌, Option, none, some, List, [], ◌∷◌, ◌==◌, if◌then◌else◌,
}
use nebula_operator.Condition.Status.{
  ConditionStatus, condition_true, condition_false, Condition, set_condition, is_condition_true,
}

pub record WorkloadStatus : Type 0 where
  pub replicas : ℕ
  pub ready_replicas : ℕ
  pub updated_replicas : ℕ
  pub current_replicas : ℕ
  pub current_revision : ℕ
  pub update_revision : ℕ

-- `volume_done` is the volume status' ProvisionedDone, `none` where that status is nil.
pub record Component : Type 0 where
  pub spec_replicas : ℕ
  pub workload : Option WorkloadStatus
  pub volume_done : Option Bool

pub record NebulaCluster : Type 0 where
  pub metad : Component
  pub storaged : Component
  pub graphd : Component
  pub balanced_spaces_nil : Bool
  pub removed_spaces_nil : Bool
  pub last_balance_job_nil : Bool
  pub failure_hosts_nil : Bool
  pub conditions : List Condition
  pub generation : ℕ
  pub observed_generation : ℕ

-- The type `NebulaClusterReady`.
abbrev pub nebula_cluster_ready : ℕ
nebula_cluster_ready = 0

pub data Reason : Type 0 where
  workload_ready workload_not_up_to_date metad_unhealthy storaged_unhealthy graphd_unhealthy
        volume_not_provisioning :
      Reason

-- The reason's text and the message beside it, by a number.
abbrev pub reason_text : Reason → ℕ
reason_text workload_ready = 0
reason_text workload_not_up_to_date = 1
reason_text metad_unhealthy = 2
reason_text storaged_unhealthy = 3
reason_text graphd_unhealthy = 4
reason_text volume_not_provisioning = 5

abbrev pub rolling_update_done : WorkloadStatus → Bool
rolling_update_done w =
    w.updated_replicas == w.replicas
    && (w.ready_replicas == w.replicas
        && (w.current_replicas == w.updated_replicas && w.current_revision == w.update_revision))

abbrev pub workload_ready_for : ℕ → Option WorkloadStatus → Bool
workload_ready_for replicas none = false
workload_ready_for replicas (some w) = replicas == w.ready_replicas && rolling_update_done w

-- `IsReady` of the three components.
abbrev pub is_component_ready : Component → Bool
is_component_ready c = workload_ready_for c.spec_replicas c.workload

abbrev pub is_storaged_available : NebulaCluster → Bool
is_storaged_available nc =
    is_component_ready nc.storaged
    && (nc.balanced_spaces_nil
        && (nc.removed_spaces_nil && (nc.last_balance_job_nil && nc.failure_hosts_nil)))

-- A workload without a status counts as up to date, a volume without one as provisioned.
abbrev pub is_up_to_date : Option WorkloadStatus → Bool
is_up_to_date none = true
is_up_to_date (some w) = w.current_revision == w.update_revision

abbrev pub is_provisioned : Option Bool → Bool
is_provisioned none = true
is_provisioned (some done) = done

abbrev pub all_workloads_are_up_to_date : NebulaCluster → Bool
all_workloads_are_up_to_date nc =
    is_up_to_date nc.metad.workload
    && (is_up_to_date nc.storaged.workload && is_up_to_date nc.graphd.workload)

abbrev pub all_volumes_are_provisioned_done : NebulaCluster → Bool
all_volumes_are_provisioned_done nc =
    is_provisioned nc.metad.volume_done
    && (is_provisioned nc.storaged.volume_done && is_provisioned nc.graphd.volume_done)

-- The switch: the first case that is true gives the reason.
unfoldable pub ready_reason : NebulaCluster → Reason
ready_reason nc =
    if not (all_workloads_are_up_to_date nc)
    then workload_not_up_to_date
    else if not (is_component_ready nc.metad)
    then metad_unhealthy
    else if not (is_storaged_available nc)
    then storaged_unhealthy
    else if not (is_component_ready nc.graphd)
    then graphd_unhealthy
    else if not (all_volumes_are_provisioned_done nc)
    then volume_not_provisioning
    else workload_ready

abbrev pub ready_status : Reason → ConditionStatus
ready_status workload_ready = condition_true
ready_status _ = condition_false

unfoldable pub update_ready_condition : ℕ → NebulaCluster → NebulaCluster
unfolding ready_reason set_condition
update_ready_condition now nc =
    let reason = ready_reason nc in
    record nc {
      conditions = set_condition nc.conditions (record {
        kind = nebula_cluster_ready;
        status = ready_status reason;
        reason = reason_text reason;
        message = reason_text reason;
        last_update_time = now;
        last_transition_time = now;
      });
    }

unfoldable pub is_condition_ready : NebulaCluster → Bool
unfolding is_condition_true
is_condition_ready nc = is_condition_true nc.conditions nebula_cluster_ready

unfoldable pub is_ready : NebulaCluster → Bool
unfolding is_condition_ready
is_ready nc = nc.observed_generation == nc.generation && is_condition_ready nc

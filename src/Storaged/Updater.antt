-- ===== src/Storaged/Updater.antt =====
-- pkg/controller/component/storaged_updater.go: the rolling update of the storage pods, with
-- `getNextUpdatePod` of helper.go. Of the workload objects the code reads the replicas, the
-- partition and whether the pod templates are equal; what it writes are the calls
-- `set_partition` and `set_last_config`.
pub mod NextPod
pub mod Guards
pub mod Leaders
use nebula_operator.Common.{
  ℕ, zero, suc, ◌+◌, ◌*◌, ◌/◌, Bool, true, false, not, ◌&&◌, ◌||◌, Option, none, some, List, [],
  ◌∷◌, ltb, ◌==◌, if◌then◌else◌,
}
use nebula_operator.Common.Effect.{
  M, Outcome, ok, err, panic, Error, not_found, reconcile, job_failed, other, ◌>>=◌, ◌>>◌, return,
  fail, crash, attempt,
}
use nebula_operator.Nebula.World.{
  World, Phase, running, scale_in, scale_out, update, suspend, StoragedStatus, Cluster, Workload,
  get_pod, update_pod, delete_pod, set_partition, set_last_config, ask, get_cluster, modify,
  make_if_nil,
}
use nebula_operator.Nebula.Meta.{
  MetaServer, meta_list_spaces, meta_balance_leader, get_leader_count, is_leader_balanced,
}
use nebula_operator.Storaged.Api.{
  ApiServer, Pod, PodPhase, pending, running, other, second, save_status, time_now, with_client,
}
use nebula_operator.Storaged.Visit.{for_unlisted}
use nebula_operator.Storaged.Balancer.{add_balanced}
use nebula_operator.Storaged.Leader.{StorageServer, trans_leader_if_necessary}
use nebula_operator.Storaged.Scaler.{has_some, set_phase}

-- Thirty minutes, and the intervals between two balancings of leaders.
abbrev pub trans_leader_timeout : ℕ
trans_leader_timeout = 1800 * second

abbrev pub balance_leader_interval : ℕ
balance_leader_interval = 15 * second

abbrev pub balance_waiting_time : ℕ
balance_waiting_time = 30 * second

-- A time printed in RFC 3339 and read back loses the fraction of its second.
abbrev pub to_second : ℕ → ℕ
to_second t = t / second * second

abbrev pub is_pod_running : PodPhase → Bool
is_pod_running PodPhase.running = true
is_pod_running _ = false

abbrev pub is_running : Phase → Bool
is_running Phase.running = true
is_running _ = false

abbrev pub is_scaling : Phase → Bool
is_scaling scale_in = true
is_scaling scale_out = true
is_scaling _ = false

abbrev pub is_update : Phase → Bool
is_update update = true
is_update _ = false

unfoldable pub set_balanced_time : Option ℕ → StoragedStatus → StoragedStatus
set_balanced_time t st = record st { last_balanced_time = t }

module _ (api : ApiServer) (storage : StorageServer) (meta : MetaServer) where
  -- One pod of the loop: its revision label, whether it runs, its ordinal, and the pods below.
  unfoldable pub judge_pod : ℕ → Option ℕ → Bool → ℕ → M World (Option ℕ) → M World (Option ℕ)
  judge_pod update_revision none runs index below = fail reconcile
  judge_pod update_revision (some revision) runs index below =
      if revision == update_revision
      then (if runs then below else fail reconcile)
      else return (some index)

  -- The loop from the pod `count - 1` down; `none` is -1.
  unfoldable pub get_next_update_pod : ℕ → ℕ → M World (Option ℕ)
  unfolding judge_pod
  get_next_update_pod update_revision zero = return none
  get_next_update_pod update_revision (suc index) = do
    pod ← ask api.pod (get_pod index)
    judge_pod update_revision pod.revision (is_pod_running pod.pod_phase) index
        (get_next_update_pod update_revision index)

  -- Whether the transfer, begun at that time, takes longer than the timeout.
  late : Option (Option ℕ) → M World Bool
  late (some (some begin)) = do now ← time_now api; return (ltb (begin + trans_leader_timeout) now)
  late _ = return false

  -- `readyToUpdate`: an error of the count is logged and means no.
  counted : Option (Option ℕ) → Outcome ℕ → M World Bool
  unfolding late
  counted trans_begin panic = crash
  counted trans_begin (err e) = return false
  counted trans_begin (ok zero) = return true
  counted trans_begin (ok (suc count)) = late trans_begin

  unfoldable pub ready_to_update : ℕ → Pod → M World Bool
  unfolding counted
  ready_to_update leader_host pod = do
    count ← attempt (get_leader_count meta leader_host)
    counted pod.trans_begin count

  annotate : ℕ → Pod → Option (Option ℕ) → M World Pod
  annotate ordinal pod (some t) = return pod
  annotate ordinal pod none = do
    now ← time_now api
    ask api.pod_done (update_pod ordinal)
    return (record pod { trans_begin = some (some (to_second now)) })

  -- The pod with the annotation, set now if it was missing.
  unfoldable pub annotated : ℕ → Pod → M World Pod
  unfolding annotate
  annotated ordinal pod = annotate ordinal pod pod.trans_begin

  abbrev pub exempt : Cluster → Bool → Bool
  exempt c empty = empty || (ltb c.replicas 3 || c.force_update_enabled)

  -- The pod is touched only when it leads no partition any more, or the transfer takes too long.
  unfoldable pub after_transfer : ℕ → M World (Unit {0}) → Pod → M World (Unit {0})
  unfolding annotated ready_to_update trans_leader_if_necessary
  after_transfer ordinal act pod = do
    pod' ← annotated ordinal pod
    ready ← ready_to_update ordinal pod'
    if ready then act else do trans_leader_if_necessary storage meta ordinal; fail reconcile

  abbrev pub partition_to : ℕ → M World (Unit {0})
  partition_to ordinal = ask api.workload_set (set_partition ordinal)

  unfoldable pub update_storaged_pod : ℕ → Bool → M World (Unit {0})
  unfolding after_transfer
  update_storaged_pod ordinal empty = do
    pod ← ask api.pod (get_pod ordinal)
    c ← get_cluster
    if exempt c empty
        then partition_to ordinal
        else after_transfer ordinal (partition_to ordinal) pod

  unfoldable pub restart_pod : ℕ → M World (Unit {0})
  unfolding after_transfer
  restart_pod ordinal = with_client meta (do
    spaces ← meta_list_spaces meta
    c ← get_cluster
    if exempt c (not (has_some spaces)) then ask api.pod_done (delete_pod ordinal) else do
      pod ← ask api.pod (get_pod ordinal)
      after_transfer ordinal (ask api.pod_done (delete_pod ordinal)) pod)

  -- One space of `balanceLeader`: it is passed over once its leaders are balanced; before that at
  -- most one balancing is started in a reconciliation.
  unfoldable pub check_balanced : ℕ → Outcome Bool → M World (Unit {0})
  check_balanced s panic = crash
  check_balanced s (err e) = fail reconcile
  check_balanced s (ok true) = modify (λ st. add_balanced st s)
  check_balanced s (ok false) = do
    meta_balance_leader meta s
    now ← time_now api
    modify (set_balanced_time (some now))
    fail reconcile

  -- The wait since the last balancing of leaders.
  since_last : ℕ → Option ℕ → M World (Unit {0})
  unfolding check_balanced
  since_last s none = do
    now ← time_now api
    modify (set_balanced_time (some (now + balance_waiting_time)))
    fail reconcile
  since_last s (some last) = do
    now ← time_now api
    if ltb now (last + balance_leader_interval)
        then fail reconcile
        else do balanced ← attempt (is_leader_balanced meta s); check_balanced s balanced

  unfoldable pub balance_leader_of : ℕ → M World (Unit {0})
  unfolding since_last
  balance_leader_of s = do c ← get_cluster; since_last s c.storaged.last_balanced_time

  unfoldable pub balance_leader : List ℕ → M World (Unit {0})
  unfolding balance_leader_of
  balance_leader spaces = do
    modify (λ st. record st { balanced_spaces = make_if_nil st.balanced_spaces })
    for_unlisted (λ st. st.balanced_spaces) balance_leader_of spaces

  unfoldable pub balance : M World (Unit {0})
  unfolding balance_leader
  balance = with_client meta (do
    spaces ← meta_list_spaces meta
    if has_some spaces
        then (do
          balance_leader spaces
          modify (λ st. record st { balanced_spaces = none })
          save_status api)
        else return tt)

  abbrev pub updated : StoragedStatus → StoragedStatus
  updated st = record st {
    balanced_spaces = none;
    last_balanced_time = none;
    phase = Phase.running;
  }

  unfoldable pub update_running_phase : List ℕ → M World (Unit {0})
  unfolding balance_leader
  update_running_phase spaces = do
    c ← get_cluster
    if not (has_some spaces) || c.replicas == 1
        then modify (set_phase Phase.running)
        else do balance_leader spaces; modify updated

  -- An error NotFound of `getNextUpdatePod` becomes a ReconcileError.
  continue_update : List ℕ → Outcome (Option ℕ) → M World (Unit {0})
  unfolding update_storaged_pod update_running_phase
  continue_update spaces panic = crash
  continue_update spaces (err not_found) = fail reconcile
  continue_update spaces (err reconcile) = fail reconcile
  continue_update spaces (err job_failed) = fail job_failed
  continue_update spaces (err (Error.other n)) = fail (Error.other n)
  continue_update spaces (ok (some index)) = update_storaged_pod index (not (has_some spaces))
  continue_update spaces (ok none) = update_running_phase spaces

  -- The rolling update itself, with the partition and the replicas of the old workload.
  unfoldable pub roll : ℕ → ℕ → Workload → M World (Unit {0})
  unfolding get_next_update_pod continue_update
  roll old_partition old_replicas wl = do
    partition_to old_partition
    with_client meta (do
      spaces ← meta_list_spaces meta
      index ← attempt (get_next_update_pod wl.update_revision old_replicas)
      continue_update spaces index)

  -- `Update`: a status with no workload is a nil that is dereferenced.
  unfoldable pub update_storaged : Bool → ℕ → ℕ → M World (Unit {0})
  unfolding roll
  update_storaged template_equal old_partition old_replicas = do
    c ← get_cluster
    if c.replicas == 0
        then return tt
        else if is_scaling c.storaged.phase || is_update c.metad_phase
        then ask api.workload_set set_last_config
        else if not template_equal
        then return tt
        else elim c.storaged.workload [
          | none ↦ crash
          | some wl ↦
              if wl.update_revision == wl.current_revision && is_running c.storaged.phase
              then return tt
              else roll old_partition old_replicas wl
        ]

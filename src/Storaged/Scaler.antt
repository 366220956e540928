-- ===== src/Storaged/Scaler.antt =====
-- pkg/controller/component/storaged_scaler.go, and `PVCMark` of pvc_deleter.go.
pub mod Spaces
pub mod Hosts
pub mod Done
pub mod Reclaim
use nebula_operator.Common.{
  ℕ, zero, suc, ◌+◌, ◌-◌, Bool, true, false, not, ◌||◌, Option, none, some, List, [], ◌∷◌, ltb,
  ◌==◌, length, if◌then◌else◌,
}
use nebula_operator.Common.Effect.{
  M, Outcome, ok, err, panic, Error, not_found, reconcile, job_failed, other, ◌>>=◌, ◌>>◌, return,
  fail, crash, attempt,
}
use nebula_operator.Nebula.World.{
  World, Phase, scale_in, scale_out, running, StoragedStatus, Cluster, Workload, Pvc, log_pvc,
  data_pvc, get_pod, get_pvc, update_pvc, ask, get_cluster, modify, listed, append_to, make_if_nil,
}
use nebula_operator.Nebula.Meta.{MetaServer, meta_list_spaces, meta_drop_hosts, meta_balance_leader}
use nebula_operator.Storaged.Api.{ApiServer, Pod, PodPhase, pending, save_status, with_client}
use nebula_operator.Storaged.Visit.{for_unlisted}
use nebula_operator.Storaged.Balancer.{add_balanced, balance_space, remove_host}

abbrev pub set_phase : Phase → StoragedStatus → StoragedStatus
set_phase p st = record st { phase = p }

-- The status once the scaling has ended.
abbrev pub scaled_out : StoragedStatus → StoragedStatus
scaled_out st = record st { balanced_spaces = none; last_balance_job = none; phase = running }

abbrev pub scaled_in : StoragedStatus → StoragedStatus
scaled_in st = record st {
  balanced_spaces = none;
  removed_spaces = none;
  last_balance_job = none;
  phase = running;
}

abbrev pub is_pending : PodPhase → Bool
is_pending pending = true
is_pending _ = false

unfoldable pub is_storaged_created_pod_ready : Cluster → Bool
is_storaged_created_pod_ready c = elim c.storaged.workload [
  | none ↦ false
  | some wl ↦ c.replicas == wl.ready_replicas
]

-- The claims of a storage pod: `ordinalPVCNames` for a component other than graphd.
abbrev pub ordinal_pvc_names : ℕ → List Pvc
ordinal_pvc_names i = log_pvc i ∷ data_pvc i ∷ []

abbrev pub has_some : List ℕ → Bool
has_some [] = false
has_some (x ∷ xs) = true

module _ (api : ApiServer) (meta : MetaServer) where
  -- The loop over the spaces that are not yet balanced.
  unfoldable pub balance_spaces : List ℕ → M World (Unit {0})
  balance_spaces = for_unlisted (λ st. st.balanced_spaces) (balance_space api meta)

  unfoldable pub make_balanced : List ℕ → M World (Unit {0})
  make_balanced spaces =
      if has_some spaces
      then modify (λ st. record st { balanced_spaces = make_if_nil st.balanced_spaces })
      else return tt

  -- What `ScaleOut` does with a meta client.
  unfoldable pub scale_out_data : M World (Unit {0})
  unfolding balance_spaces make_balanced
  scale_out_data = do
    spaces ← meta_list_spaces meta
    make_balanced spaces
    balance_spaces spaces
    modify scaled_out
    save_status api

  -- What follows once the phase is recorded.
  unfoldable pub scale_out_recorded : M World (Unit {0})
  unfolding scale_out_data is_storaged_created_pod_ready
  scale_out_recorded = do
    c ← get_cluster
    if not (is_storaged_created_pod_ready c)
        then return tt
        else if not c.auto_balance_enabled
        then modify (set_phase running)
        else with_client meta scale_out_data

  unfoldable pub scale_out_all : M World (Unit {0})
  unfolding scale_out_recorded
  scale_out_all = do modify (set_phase scale_out); save_status api; scale_out_recorded

  unfoldable pub make_removed : List ℕ → M World (Unit {0})
  make_removed spaces =
      if has_some spaces
      then modify (λ st. record st {
        balanced_spaces = make_if_nil st.balanced_spaces;
        removed_spaces = make_if_nil st.removed_spaces;
      })
      else return tt

  -- One pod of the loop, and the pods below: it counts if it exists and is not pending.
  unfoldable pub collected : Outcome Pod → ℕ → M World (List ℕ) → M World (List ℕ)
  collected (ok pod) i below =
      if is_pending pod.pod_phase then below else do rest ← below; return (i ∷ rest)
  collected (err not_found) i below = below
  collected (err reconcile) i below = fail reconcile
  collected (err job_failed) i below = fail job_failed
  collected (err (other n)) i below = fail (other n)
  collected panic i below = crash

  -- The pods `low + count - 1` down to `low` that exist and are not pending.
  unfoldable pub collect_hosts : ℕ → ℕ → M World (List ℕ)
  unfolding collected
  collect_hosts zero low = return []
  collect_hosts (suc count) low = do
    r ← attempt (ask api.pod (get_pod (low + count)))
    collected r (low + count) (collect_hosts count low)

  unfoldable pub remove_spaces : List ℕ → List ℕ → M World (Unit {0})
  remove_spaces hosts = for_unlisted (λ st. st.removed_spaces) (λ s. remove_host api meta s hosts)

  unfoldable pub drop_replicas : ℕ → ℕ → List ℕ → M World (Unit {0})
  unfolding collect_hosts remove_spaces
  drop_replicas old_replicas new_replicas spaces =
      if ltb new_replicas old_replicas
      then (do
        hosts ← collect_hosts (old_replicas - new_replicas) new_replicas
        remove_spaces hosts spaces
        meta_drop_hosts meta hosts)
      else return tt

  unfoldable pub balance_leader_once : ℕ → M World (Unit {0})
  balance_leader_once s = do
    meta_balance_leader meta s
    modify (λ st. add_balanced st s)
    save_status api

  unfoldable pub balance_leaders : List ℕ → M World (Unit {0})
  unfolding balance_leader_once
  balance_leaders = for_unlisted (λ st. st.balanced_spaces) balance_leader_once

  -- Each claim that exists is annotated for its deferred deletion.
  unfoldable pub mark_pvcs : List Pvc → M World (Unit {0})
  mark_pvcs [] = return tt
  mark_pvcs (p ∷ ps) = do
    r ← attempt (ask api.pvc (get_pvc p))
    elim r [
      | ok _ ↦ ask api.pvc (update_pvc p)
      | err e ↦ elim e [
        | not_found ↦ return tt
        | reconcile ↦ fail (other 5)
        | job_failed ↦ fail (other 5)
        | other n ↦ fail (other 5)
      ]
      | panic ↦ crash
    ]
    mark_pvcs ps

  unfoldable pub pvc_mark : ℕ → ℕ → M World (Unit {0})
  unfolding mark_pvcs
  pvc_mark zero low = return tt
  pvc_mark (suc count) low = do mark_pvcs (ordinal_pvc_names (low + count)); pvc_mark count low

  -- The check that the claims are gone: it ends at an error other than NotFound.
  unfoldable pub pvcs_deleted : List Pvc → M World Bool
  pvcs_deleted [] = return true
  pvcs_deleted (p ∷ ps) = do
    r ← attempt (ask api.pvc (get_pvc p))
    elim r [
      | ok _ ↦ pvcs_deleted ps
      | err e ↦ elim e [
        | not_found ↦ pvcs_deleted ps
        | reconcile ↦ return false
        | job_failed ↦ return false
        | other n ↦ return false
      ]
      | panic ↦ crash
    ]

  unfoldable pub scale_in_data : ℕ → ℕ → M World (Unit {0})
  unfolding make_removed drop_replicas balance_leaders pvc_mark pvcs_deleted
  scale_in_data old_replicas new_replicas = do
    spaces ← meta_list_spaces meta
    make_removed spaces
    drop_replicas old_replicas new_replicas spaces
    balance_leaders spaces
    pvc_mark (old_replicas - new_replicas) new_replicas
    deleted ← pvcs_deleted (ordinal_pvc_names new_replicas)
    if not deleted then fail reconcile else do modify scaled_in; save_status api

  unfoldable pub scale_in_all : ℕ → ℕ → M World (Unit {0})
  unfolding scale_in_data
  scale_in_all old_replicas new_replicas = do
    modify (set_phase scale_in)
    save_status api
    with_client meta (scale_in_data old_replicas new_replicas)

  abbrev is_phase : Phase → Phase → Bool
  is_phase scale_in scale_in = true
  is_phase scale_out scale_out = true
  is_phase _ _ = false

  unfoldable pub scale : ℕ → ℕ → M World (Unit {0})
  unfolding scale_in_all scale_out_all
  scale old_replicas new_replicas = do
    c ← get_cluster
    if ltb new_replicas old_replicas || is_phase c.storaged.phase scale_in
        then scale_in_all old_replicas new_replicas
        else if ltb old_replicas new_replicas || is_phase c.storaged.phase scale_out
        then scale_out_all
        else return tt

-- ===== src/Controller/Reconcile.antt =====
-- pkg/controller/nebulacluster/nebula_cluster_control.go: one reconciliation of a NebulaCluster, and
-- its deletion. The managers of the components stand behind the interfaces `ReconcileManager`,
-- `PVCReclaimer` and the API client, whose operations act on the object and on `Env`, the rest of
-- the world. An aggregate of errors is the list of them, nil the empty list.
pub mod Nil
use nebula_operator.Common.{
  ℕ, Bool, true, false, not, ◌&&◌, Option, none, some, List, [], ◌∷◌, ◌++◌, if◌then◌else◌,
}
use nebula_operator.Common.Effect.{
  M, Outcome, ok, err, panic, Error, reconcile, ◌>>=◌, ◌>>◌, return, fail, crash, attempt,
}
use nebula_operator.Controller.Ready.{
  NebulaCluster, update_ready_condition, is_condition_ready, is_ready,
}

-- What the code reads of the annotations and of the finalizers is the answers to its tests.
pub record Object : Type 0 where
  pub cluster : NebulaCluster
  pub has_finalizer : Bool
  pub is_br_enabled : Bool
  pub is_restore_name_not_empty : Bool
  pub is_restore_metad_done : Bool
  pub is_restore_storaged_done : Bool
  pub version : Option ℕ

pub record Run (Env : Type 0) : Type 0 where
  pub nc : Object
  pub env : Env

-- The operations that the control calls.
pub record Managers (Env : Type 0) : Type 0 where
  pub add_finalizer : M (Run Env) (Unit {0})
  pub remove_finalizer : M (Run Env) (Unit {0})
  pub check_rbac : M (Run Env) (Unit {0})
  pub metad : M (Run Env) (Unit {0})
  pub storaged : M (Run Env) (Unit {0})
  pub graphd : M (Run Env) (Unit {0})
  pub exporter : M (Run Env) (Unit {0})
  pub console : M (Run Env) (Unit {0})
  pub meta_reconciler : M (Run Env) (Unit {0})
  pub reclaim : M (Run Env) (Unit {0})
  pub new_meta_client : M (Run Env) (Unit {0})
  pub list_host_versions : M (Run Env) (List ℕ)
  pub disconnect : Run Env → Run Env
  pub update_status : M (Run Env) (Unit {0})
  pub delete_graphd : M (Run Env) (Unit {0})
  pub delete_storaged : M (Run Env) (Unit {0})
  pub delete_meta : M (Run Env) (Unit {0})
  pub delete_pvcs : M (Run Env) (Unit {0})
  pub deep_equal : Object → Object → Bool

module _ {Env : Type 0} (managers : Managers Env) where
  abbrev pub get_object : M (Run Env) Object
  get_object s = (ok s.nc, s)

  abbrev pub set_version : List ℕ → Run Env → Run Env
  set_version [] s = s
  set_version (version ∷ _) s = record s { nc = record (s.nc) { version = some version } }

  -- The version is that of the first meta host.
  abbrev pub list_version : M (Run Env) (Unit {0})
  list_version = do versions ← managers.list_host_versions; λ s. (ok tt, set_version versions s)

  unfoldable pub set_cluster_version : M (Run Env) (Unit {0})
  set_cluster_version = do
    managers.new_meta_client
    λ s. ((list_version s).0, managers.disconnect (list_version s).1)

  abbrev pub waits_for_metad : Object → Bool
  waits_for_metad nc =
      nc.is_br_enabled && (nc.is_restore_name_not_empty && not nc.is_restore_metad_done)

  abbrev pub waits_for_storaged : Object → Bool
  waits_for_storaged nc =
      nc.is_br_enabled && (nc.is_restore_name_not_empty && not nc.is_restore_storaged_done)

  -- `updateNebulaCluster` from the reconciliation of the graph component on.
  unfoldable pub reconcile_rest : M (Run Env) (Unit {0})
  unfolding set_cluster_version
  reconcile_rest = do
    managers.graphd
    set_cluster_version
    managers.exporter
    managers.console
    managers.meta_reconciler
    managers.reclaim

  abbrev pub continue_unless : Bool → M (Run Env) (Unit {0}) → M (Run Env) (Unit {0})
  continue_unless waits rest = if waits then fail reconcile else rest

  unfoldable pub reconcile_storaged : M (Run Env) (Unit {0})
  unfolding reconcile_rest
  reconcile_storaged = do
    managers.storaged
    nc ← get_object
    continue_unless (waits_for_storaged nc) reconcile_rest

  unfoldable pub reconcile_components : M (Run Env) (Unit {0})
  unfolding reconcile_storaged
  reconcile_components = do
    managers.check_rbac
    managers.metad
    nc ← get_object
    continue_unless (waits_for_metad nc) reconcile_storaged

  abbrev pub ensure_finalizer : M (Run Env) (Unit {0})
  ensure_finalizer s = if s.nc.has_finalizer then (ok tt, s) else managers.add_finalizer s

  unfoldable pub update_cluster : M (Run Env) (Unit {0})
  unfolding reconcile_components
  update_cluster = do ensure_finalizer; reconcile_components

  abbrev pub error_list : Outcome (Unit {0}) → List Error
  error_list (err e) = e ∷ []
  error_list _ = []

  -- The ready condition, and the generation observed.
  abbrev pub observe : ℕ → Run Env → Run Env
  observe now s =
      let nc = update_ready_condition now s.nc.cluster in
      record s {
        nc = record (s.nc) { cluster = record nc { observed_generation = nc.generation } };
      }

  abbrev pub answer : Object → Outcome (Unit {0}) → Outcome (Unit {0}) → Run Env → List Error
  answer old updated saved s =
      let errs = error_list updated ++ error_list saved in
      if managers.deep_equal s.nc old && is_ready s.nc.cluster
      then errs
      else if is_condition_ready s.nc.cluster
      then errs
      else errs ++ reconcile ∷ []

  -- `UpdateNebulaCluster`; the status is compared with what it was.
  unfoldable pub update_nebula_cluster : ℕ → M (Run Env) (List Error)
  unfolding update_cluster
  update_nebula_cluster now = do
    old ← get_object
    updated ← attempt update_cluster
    λ s. (ok tt, observe now s)
    saved ← attempt managers.update_status
    λ s. (ok (answer old updated saved s), s)

  unfoldable pub delete_cluster : M (Run Env) (Unit {0})
  delete_cluster = do
    managers.delete_graphd
    managers.delete_storaged
    managers.delete_meta
    managers.delete_pvcs
    managers.remove_finalizer

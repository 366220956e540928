-- ===== src/Examples/Conditions.antt =====
-- Conditions of a cluster, and a reconciliation of one that is healthy.
use nebula_operator.Common.{ℕ, ◌≡◌, ◌≢◌, ◌↔◌, refl, true, false, none, some, List, [], ◌∷◌}
use nebula_operator.Common.Effect.{ok}
use nebula_operator.Condition.Status.{
  Condition, ConditionStatus, condition_true, condition_false, get_condition, set_condition,
  is_condition_true, filter_out_condition, replace_condition,
}
use nebula_operator.Condition.Laws.{
  OnePerType, SetTo, set_condition-OnePerType, get_condition-set_condition,
}
use nebula_operator.Controller.Ready.{
  Component, NebulaCluster, update_ready_condition, ready_reason, is_condition_ready, is_ready,
}
use nebula_operator.Controller.Ready.Iff.{Healthy, update_ready_condition_iff}
use nebula_operator.Controller.Reconcile.{
  Run, Managers, observe, update_nebula_cluster, update_cluster, reconcile_components,
  reconcile_storaged, reconcile_rest, set_cluster_version,
}
use nebula_operator.Controller.Reconcile.Nil.{InOrder, update_nebula_cluster_nil}

abbrev condition_of : ℕ → ConditionStatus → ℕ → Condition
condition_of kind status time = record {
  kind = kind;
  status = status;
  reason = 1;
  message = 1;
  last_update_time = time;
  last_transition_time = time;
}

abbrev conditions : List Condition
conditions = condition_of 0 condition_false 10 ∷ condition_of 1 condition_true 20 ∷ []

set_condition-OnePerType_example :
    OnePerType (set_condition conditions (condition_of 0 condition_true 30))
set_condition-OnePerType_example =
    set_condition-OnePerType conditions (condition_of 0 condition_true 30) ((refl, tt), (tt, tt))

get_condition-set_condition_example :
    ((d : Condition) × (get_condition
          (set_condition conditions (condition_of 0 condition_true 30))
          0
        ≡ some d)
      × SetTo (get_condition conditions 0) (condition_of 0 condition_true 30) d)
    × ((k : ℕ)
        → k ≢ 0
        → get_condition (set_condition conditions (condition_of 0 condition_true 30)) k
          ≡ get_condition conditions k)
get_condition-set_condition_example =
    get_condition-set_condition conditions (condition_of 0 condition_true 30)

abbrev component : Component
component = record {
  spec_replicas = 3;
  workload = some (record {
    replicas = 3;
    ready_replicas = 3;
    updated_replicas = 3;
    current_replicas = 3;
    current_revision = 1;
    update_revision = 1;
  });
  volume_done = none;
}

abbrev healthy : NebulaCluster
healthy = record {
  metad = component;
  storaged = component;
  graphd = component;
  balanced_spaces_nil = true;
  removed_spaces_nil = true;
  last_balance_job_nil = true;
  failure_hosts_nil = true;
  conditions = conditions;
  generation = 2;
  observed_generation = 1;
}

update_ready_condition_iff_example :
    (is_condition_ready (update_ready_condition 50 healthy) ≡ true) ↔ Healthy healthy
update_ready_condition_iff_example = update_ready_condition_iff 50 healthy

-- Managers that succeed and change nothing.
abbrev managers : Managers (Unit {0})
managers = record {
  add_finalizer = λ s. (ok tt, s);
  remove_finalizer = λ s. (ok tt, s);
  check_rbac = λ s. (ok tt, s);
  metad = λ s. (ok tt, s);
  storaged = λ s. (ok tt, s);
  graphd = λ s. (ok tt, s);
  exporter = λ s. (ok tt, s);
  console = λ s. (ok tt, s);
  meta_reconciler = λ s. (ok tt, s);
  reclaim = λ s. (ok tt, s);
  new_meta_client = λ s. (ok tt, s);
  list_host_versions = λ s. (ok (3 ∷ []), s);
  disconnect = λ s. s;
  update_status = λ s. (ok tt, s);
  delete_graphd = λ s. (ok tt, s);
  delete_storaged = λ s. (ok tt, s);
  delete_meta = λ s. (ok tt, s);
  delete_pvcs = λ s. (ok tt, s);
  deep_equal = λ _ _. false;
}

abbrev run : Run (Unit {0})
run = record {
  nc = record {
    cluster = healthy;
    has_finalizer = false;
    is_br_enabled = false;
    is_restore_name_not_empty = false;
    is_restore_metad_done = false;
    is_restore_storaged_done = false;
    version = none;
  };
  env = tt;
}

abbrev after : Run (Unit {0})
after = (update_nebula_cluster managers 50 run).1

update_nebula_cluster_nil_example :
    (t : Run (Unit {0})) × InOrder managers run t
    × (managers.update_status (observe managers 50 t) ≡ (ok tt, after))
    × (is_condition_ready after.nc.cluster ≡ true)
unfolding update_nebula_cluster update_cluster reconcile_components reconcile_storaged
    reconcile_rest set_cluster_version update_ready_condition ready_reason set_condition
    get_condition replace_condition filter_out_condition is_ready is_condition_ready
    is_condition_true
update_nebula_cluster_nil_example = update_nebula_cluster_nil managers 50 run after refl

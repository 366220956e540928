-- ===== src/Examples/Scaling.antt =====
-- A scale-in from five pods to three, and a scale-out to three, once the balance job has finished.
use nebula_operator.Common.{◌≡◌, ◌<◌, refl, true, none, [], ◌∷◌}
use nebula_operator.Common.Effect.{ok}
use nebula_operator.Nebula.World.{World, Phase, Pvc, log_pvc, data_pvc, run_admin_job, AdminJobReq}
use nebula_operator.Nebula.Meta.{MetaServer, meta_list_spaces, meta_drop_hosts, meta_balance_leader}
use nebula_operator.Nebula.Jobs.{balance_status}
use nebula_operator.Storaged.Balancer.{
  add_balanced, add_removed, balance_space, remove_host, followed, follow_or_start, record_balanced,
  record_removed,
}
use nebula_operator.Storaged.Balancer.Recorded.{Finished, balance_space_ok, remove_host_ok}
use nebula_operator.Storaged.Visit.{for_unlisted}
use nebula_operator.Storaged.Scaler.{
  is_storaged_created_pod_ready, balance_spaces, make_balanced, scale_out_data, scale_out_recorded,
  scale_out_all, make_removed, collect_hosts, collected, remove_spaces, drop_replicas,
  balance_leader_once, balance_leaders, mark_pvcs, pvc_mark, pvcs_deleted, scale_in_data,
  scale_in_all,
}
use nebula_operator.Storaged.Scaler.Done.{Dropped, scale_in_all_ok, ScaledOut, scale_out_all_ok}
use nebula_operator.Storaged.Scaler.Reclaim.{pvcs_deleted_existing}
use nebula_operator.Examples.Servers.{meta_of, api_server, world, status}

abbrev meta : MetaServer
meta = meta_of 7

abbrev recover_request : AdminJobReq
recover_request = record {
  space = 1;
  op = nebula_operator.Nebula.World.recover;
  kind = nebula_operator.Nebula.World.data_balance;
  paras = [];
}

balance_space_ok_example :
    Finished api_server meta world 1
    × ((balance_space api_server meta 1 world).1.cluster.storaged ≡ add_balanced status 1)
unfolding balance_space follow_or_start balance_status followed record_balanced meta_balance_leader
balance_space_ok_example = balance_space_ok api_server meta 1 world _ refl

remove_host_ok_example :
    Finished api_server meta world 1
    × ((remove_host api_server meta 1 (4 ∷ 3 ∷ []) world).1.cluster.storaged ≡ add_removed status 1)
unfolding remove_host follow_or_start balance_status followed record_removed
remove_host_ok_example = remove_host_ok api_server meta 1 (4 ∷ 3 ∷ []) world _ refl

abbrev scaled : World
scaled = (scale_in_all api_server meta 5 3 world).1

scale_in_all_ok_example :
    (scaled.cluster.storaged.phase ≡ Phase.running)
    × (scaled.cluster.storaged.balanced_spaces ≡ none)
    × (scaled.cluster.storaged.removed_spaces ≡ none)
    × (scaled.cluster.storaged.last_balance_job ≡ none)
    × (3 < 5 → Dropped api_server meta 5 3 status.removed_spaces status.last_balance_job)
unfolding scale_in_all scale_in_data meta_list_spaces make_removed drop_replicas collect_hosts
    collected remove_spaces for_unlisted remove_host follow_or_start balance_status followed
    record_removed meta_drop_hosts balance_leaders balance_leader_once meta_balance_leader pvc_mark
    mark_pvcs pvcs_deleted
scale_in_all_ok_example = scale_in_all_ok api_server meta 5 3 world _ refl

scale_out_all_ok_example :
    ScaledOut api_server meta true true status.balanced_spaces status.last_balance_job
      (scale_out_all api_server meta world).1
unfolding scale_out_all scale_out_recorded scale_out_data is_storaged_created_pod_ready
    meta_list_spaces make_balanced balance_spaces for_unlisted balance_space follow_or_start
    balance_status followed record_balanced meta_balance_leader
scale_out_all_ok_example = scale_out_all_ok api_server meta world _ refl

pvcs_deleted_existing_example :
    (pvcs_deleted api_server meta (log_pvc 3 ∷ data_pvc 3 ∷ []) world).0 ≡ ok true
pvcs_deleted_existing_example =
    pvcs_deleted_existing api_server meta (log_pvc 3 ∷ data_pvc 3 ∷ []) world (λ _. refl)

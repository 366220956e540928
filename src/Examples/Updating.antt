-- ===== src/Examples/Updating.antt =====
-- A rolling update of five pods that all run the old revision.
use nebula_operator.Common.{
  ℕ, ◌≡◌, ◌≢◌, ◌⊎◌, ◌||◌, refl, true, false, not, none, some, [], ◌∷◌, arith, All, contains, ◌==◌,
}
use nebula_operator.Nebula.World.{Phase, listed}
use nebula_operator.Nebula.Meta.{MetaServer, is_leader_balanced}
use nebula_operator.Storaged.Visit.{for_unlisted}
use nebula_operator.Storaged.Scaler.{has_some}
use nebula_operator.Storaged.Leader.{get_new_leader_from_peers}
use nebula_operator.Storaged.Leader.Peers.{
  get_new_leader_from_peers_other, get_new_leader_from_peers-none,
}
use nebula_operator.Storaged.Updater.{
  judge_pod, get_next_update_pod, check_balanced, balance_leader_of, balance_leader,
  update_running_phase,
}
use nebula_operator.Storaged.Updater.NextPod.{Chosen, get_next_update_pod_ok}
use nebula_operator.Storaged.Updater.Leaders.{FoundBalanced, update_running_phase_ok}
use nebula_operator.Examples.Servers.{meta_of, api_server, storage_server, world}

abbrev meta : MetaServer
meta = meta_of 7

get_next_update_pod_ok_example : Chosen api_server storage_server meta 2 5 (some 4)
unfolding get_next_update_pod judge_pod
get_next_update_pod_ok_example =
    get_next_update_pod_ok api_server storage_server meta 2 5 world _ (some 4) refl

update_running_phase_ok_example :
    ((update_running_phase api_server storage_server meta (1 ∷ []) world).1.cluster.storaged.phase
      ≡ Phase.running)
    × ((not (has_some (1 ∷ [])) || world.cluster.replicas == 1 ≡ true)
        ⊎ (All
              (λ s.
                (listed (world.cluster.storaged.balanced_spaces) s ≡ true)
                ⊎ FoundBalanced api_server storage_server meta s)
              (1 ∷ [])
            × ((update_running_phase api_server storage_server meta
                  (1 ∷ [])
                  world).1.cluster.storaged.balanced_spaces
                ≡ none)))
unfolding update_running_phase balance_leader for_unlisted balance_leader_of check_balanced
    is_leader_balanced
update_running_phase_ok_example =
    update_running_phase_ok api_server storage_server meta (1 ∷ []) world _ refl

get_new_leader_from_peers_other_example :
    (new : ℕ) × (get_new_leader_from_peers 2 (0 ∷ 1 ∷ 2 ∷ []) ≡ some new)
    × (contains (0 ∷ 1 ∷ 2 ∷ []) new ≡ true)
    × (new ≢ 2)
get_new_leader_from_peers_other_example =
    get_new_leader_from_peers_other 2 (0 ∷ 1 ∷ 2 ∷ []) refl (refl, (refl, (refl, tt))) (omega arith)

get_new_leader_from_peers-none_example :
    (get_new_leader_from_peers 5 (0 ∷ 1 ∷ 2 ∷ []) ≡ none → contains (0 ∷ 1 ∷ 2 ∷ []) 5 ≡ false)
    × (contains (0 ∷ 1 ∷ 2 ∷ []) 5 ≡ false → get_new_leader_from_peers 5 (0 ∷ 1 ∷ 2 ∷ []) ≡ none)
get_new_leader_from_peers-none_example = get_new_leader_from_peers-none 5 (0 ∷ 1 ∷ 2 ∷ [])

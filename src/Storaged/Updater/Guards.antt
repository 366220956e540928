-- ===== src/Storaged/Updater/Guards.antt =====
-- pkg/controller/component/storaged_updater.go: when `updateStoragedPod` moves the partition.
use nebula_operator.Common.{ℕ, ◌+◌, ◌<◌, ◌≡◌, ◌⊎◌, Bool, true, Option, none, some, List, ◌∷◌}
use nebula_operator.Common.Effect.{Outcome, ok, ◌>>◌}
use nebula_operator.Nebula.World.{World, Call, Cluster, get_pod}
use nebula_operator.Nebula.Meta.{MetaServer, get_leader_count}
use nebula_operator.Storaged.Api.{ApiServer, Pod}
use nebula_operator.Storaged.Leader.{StorageServer}
use nebula_operator.Storaged.Updater.{to_second, trans_leader_timeout}

module _ (api : ApiServer) (storage : StorageServer) (meta : MetaServer) where
  -- The meta service showed that the host leads no partition.
  abbrev pub LeadsNone : ℕ → Type 0
  LeadsNone ordinal = (u : World) × (t : World) × (get_leader_count meta ordinal u ≡ (ok 0, t))

  -- The transfer of leaders began then: by the pod's annotation, or by the clock now.
  abbrev pub Begun : Pod → ℕ → Type 0
  Begun pod begin =
      (pod.trans_begin ≡ some (some begin))
      ⊎ ((pod.trans_begin ≡ none) × ((before : List Call) × (begin ≡ to_second (api.now before))))

  -- More than the timeout has passed since then.
  abbrev pub Overdue : Pod → Type 0
  Overdue pod =
      (begin : ℕ) × (before : List Call) × Begun pod begin
      × (begin + trans_leader_timeout < api.now before)

  LateSince : Option (Option ℕ) → Type 0
  LateSince t =
      (begin : ℕ) × (before : List Call) × (t ≡ some (some begin))
      × (begin + trans_leader_timeout < api.now before)

  begun_of : Outcome Pod × World → Option (Option ℕ)
  begun_of (ok p, _) = p.trans_begin
  begun_of (_, _) = none

  number_of : Outcome ℕ × World → ℕ
  number_of (ok n, _) = n
  number_of (_, _) = 0

  -- The cluster is updated without waiting for the transfer of leaders.
  abbrev pub Exempt : Cluster → Bool → Type 0
  Exempt c empty = (empty ≡ true) ⊎ ((c.replicas < 3) ⊎ (c.force_update_enabled ≡ true))

  -- What the partition of a pod may be set for, in this state.
  abbrev pub MayMove : World → ℕ → Bool → ℕ → Type 0
  MayMove w ordinal empty partition =
      (partition ≡ ordinal)
      × (Exempt w.cluster empty
          ⊎ ((pod : Pod) × (api.pod (get_pod ordinal ∷ w.calls) ≡ ok pod)
              × (LeadsNone ordinal ⊎ Overdue pod)))

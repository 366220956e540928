-- ===== src/Storaged/Api.antt =====
-- The API server and the clock as the storage controllers use them, and the connection to the meta
-- service that a reconciliation opens and closes again.
use nebula_operator.Common.{ℕ, Option, List, ◌∷◌}
use nebula_operator.Common.Effect.{M, Outcome, ok, ◌>>◌}
use nebula_operator.Nebula.World.{World, Call, connect, disconnect, update_status, clock, ask}
use nebula_operator.Nebula.Meta.{MetaServer}

pub data PodPhase : Type 0 where
  pending running other : PodPhase

-- `revision` is the label controller-revision-hash; `trans_begin` the annotation
-- transLeaderBeginTime, `some none` where it is no time.
pub record Pod : Type 0 where
  pub revision : Option ℕ
  pub pod_phase : PodPhase
  pub trans_begin : Option (Option ℕ)

-- Times are in nanoseconds.
pub record ApiServer : Type 0 where
  pub saved : List Call → Outcome (Unit {0})
  pub pod : List Call → Outcome Pod
  pub pod_done : List Call → Outcome (Unit {0})
  pub pvc : List Call → Outcome (Unit {0})
  pub workload_set : List Call → Outcome (Unit {0})
  pub now : List Call → ℕ

abbrev pub second : ℕ
second = 1000000000

module _ (api : ApiServer) where
  -- `UpdateNebulaClusterStatus(nc)`
  abbrev pub save_status : M World (Unit {0})
  save_status w = ask api.saved (update_status w.cluster.storaged) w

  abbrev pub time_now : M World ℕ
  time_now = ask (λ calls. ok (api.now calls)) clock

module _ (meta : MetaServer) where
  -- The deferred `Disconnect`, whose error is only logged.
  abbrev pub closing : {A : Type 0} → M World A → M World A
  closing body w = ((body w).0, record ((body w).1) { calls = disconnect ∷ (body w).1.calls })

  abbrev pub with_client : {A : Type 0} → M World A → M World A
  with_client body = do ask meta.connected connect; closing body

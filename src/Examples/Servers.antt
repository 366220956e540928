-- ===== src/Examples/Servers.antt =====
-- Servers with constant answers: a meta service whose jobs have finished, with the space 1, whose only
-- partition the host 0 leads; an API server whose pods run; and a storage service.
use nebula_operator.Common.{ℕ, true, false, none, some, [], ◌∷◌}
use nebula_operator.Common.Effect.{ok}
use nebula_operator.Nebula.World.{World, StoragedStatus, Phase}
use nebula_operator.Nebula.Meta.{MetaServer, succeeded, finished}
use nebula_operator.Storaged.Api.{ApiServer, PodPhase}
use nebula_operator.Storaged.Leader.{StorageServer}

-- `number` is the number that the answers to admin jobs carry.
abbrev pub meta_of : ℕ → MetaServer
meta_of number = record {
  connected = λ _. ok tt;
  spaces = λ _. ok (record { code = succeeded; leader = none; payload = 1 ∷ [] });
  space = λ _. ok (record {
    code = succeeded;
    leader = none;
    payload = record { replica_factor = 3; partition_num = 1 };
  });
  parts = λ _. ok (record {
    code = succeeded;
    leader = none;
    payload = record { part_id = 1; leader = some 0; peers = 0 ∷ 1 ∷ 2 ∷ [] } ∷ [];
  });
  hosts = λ _. ok (record {
    code = succeeded;
    leader = none;
    payload = record { online = true; leads = 1 ∷ [] } ∷ [];
  });
  job = λ _. ok (record {
    code = succeeded;
    leader = none;
    payload = record { job_id = number; job_desc = finished ∷ [] };
  });
  dropped = λ _. ok (record { code = succeeded; leader = none; payload = tt });
}

abbrev pub api_server : ApiServer
api_server = record {
  saved = λ _. ok tt;
  pod = λ _. ok (record { revision = some 1; pod_phase = PodPhase.running; trans_begin = none });
  pod_done = λ _. ok tt;
  pvc = λ _. ok tt;
  workload_set = λ _. ok tt;
  now = λ _. 100000000000;
}

abbrev pub storage_server : StorageServer
storage_server = record { storage_connected = λ _. ok tt; transferred = λ _. ok none }

-- Five storage pods, three of them wanted; the job 7 of the space 1 was started.
abbrev pub status : StoragedStatus
status = record {
  phase = Phase.running;
  workload = some (record { ready_replicas = 3; update_revision = 2; current_revision = 1 });
  balanced_spaces = none;
  removed_spaces = none;
  last_balance_job = some (record { space_id = 1; job_id = 7 });
  last_balanced_time = some 1;
}

abbrev pub world : World
world = record {
  cluster = record {
    storaged = status;
    metad_phase = Phase.running;
    replicas = 3;
    zone_enabled = false;
    auto_balance_enabled = true;
    force_update_enabled = false;
    concurrent_transfer = false;
  };
  calls = [];
}

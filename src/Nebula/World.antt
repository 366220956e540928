-- ===== src/Nebula/World.antt =====
-- What the controllers of the storage component work on: the status of the NebulaCluster object
-- (apis/apps/v1alpha1/nebulacluster_types.go) and the calls made so far. The servers' answers are
-- parameters: functions of the calls made, the last one first, so any server is covered.
use nebula_operator.Common.{ℕ, Bool, false, Option, none, some, List, [], ◌∷◌, ◌++◌, contains}
use nebula_operator.Common.Effect.{M, Outcome}

pub data Phase : Type 0 where
  running scale_in scale_out update suspend : Phase

pub record BalanceJob : Type 0 where
  pub space_id : ℕ
  pub job_id : ℕ

pub record Workload : Type 0 where
  pub ready_replicas : ℕ
  pub update_revision : ℕ
  pub current_revision : ℕ

-- `StoragedStatus`. A slice is `none` where it is nil.
pub record StoragedStatus : Type 0 where
  pub phase : Phase
  pub workload : Option Workload
  pub balanced_spaces : Option (List ℕ)
  pub removed_spaces : Option (List ℕ)
  pub last_balance_job : Option BalanceJob
  pub last_balanced_time : Option ℕ

-- The fields of a NebulaCluster that the code reads; `replicas` is `spec.storaged.replicas` with
-- its default 0, and a flag is false where the pointer is nil.
pub record Cluster : Type 0 where
  pub storaged : StoragedStatus
  pub metad_phase : Phase
  pub replicas : ℕ
  pub zone_enabled : Bool
  pub auto_balance_enabled : Bool
  pub force_update_enabled : Bool
  pub concurrent_transfer : Bool

-- A parameter of an admin job: a host address in quotes, or a job's number.
pub data Para : Type 0 where
  host_para : ℕ → Para
  job_para : ℕ → Para

pub data JobOp : Type 0 where
  add show recover : JobOp

pub data JobType : Type 0 where
  leader_balance data_balance zone_balance stats : JobType

pub record AdminJobReq : Type 0 where
  pub space : ℕ
  pub op : JobOp
  pub kind : JobType
  pub paras : List Para

pub data Pvc : Type 0 where
  log_pvc data_pvc : ℕ → Pvc

-- The calls to the meta service and to the API server. Pods and their host addresses go by the
-- pod's ordinal, spaces by their number.
pub data Call : Type 0 where
  connect disconnect list_spaces list_hosts : Call
  reconnect : ℕ → Call
  get_space : ℕ → Call
  list_parts : ℕ → List ℕ → Call
  run_admin_job : AdminJobReq → Call
  drop_hosts : List ℕ → Call
  update_status : StoragedStatus → Call
  get_pod update_pod delete_pod : ℕ → Call
  get_pvc update_pvc : Pvc → Call
  set_partition : ℕ → Call
  set_last_config clock : Call
  storage_connect storage_disconnect : ℕ → Call
  trans_leader : ℕ → ℕ → ℕ → Call

pub record World : Type 0 where
  pub cluster : Cluster
  pub calls : List Call

-- One call: it is added to the calls made, and answered.
abbrev pub ask : {A : Type 0} → (List Call → Outcome A) → Call → M World A
ask answer call w = (answer (call ∷ w.calls), record w { calls = call ∷ w.calls })

abbrev pub get_cluster : M World Cluster
get_cluster w = (Outcome.ok w.cluster, w)

-- `contains` and `append` on a slice that may be nil, and `make` where it is.
abbrev pub listed : Option (List ℕ) → ℕ → Bool
listed none s = false
listed (some xs) s = contains xs s

abbrev pub append_to : Option (List ℕ) → ℕ → Option (List ℕ)
append_to none s = some (s ∷ [])
append_to (some xs) s = some (xs ++ s ∷ [])

abbrev pub make_if_nil : Option (List ℕ) → Option (List ℕ)
make_if_nil none = some []
make_if_nil (some xs) = some xs

-- A change of the storage component's status in memory.
abbrev pub modify : (StoragedStatus → StoragedStatus) → M World (Unit {0})
modify f w =
    (Outcome.ok tt, record w { cluster = record (w.cluster) { storaged = f (w.cluster.storaged) } })

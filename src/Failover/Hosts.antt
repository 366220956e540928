-- ===== src/Failover/Hosts.antt =====
-- apis/apps/v1alpha1/nebulacluster_types.go and pkg/controller/component/{failover_helper,helper}.go:
-- the failure hosts of a component's status, and the pods and claims that the failover asks for.
-- A Go map is an association list that is read at the first entry of a key; the order in which
-- `range` visits its keys is the server's `range`. The types of conditions go by numbers.
pub mod Laws
use nebula_operator.Common.{
  ℕ, Bool, true, false, not, ◌&&◌, Option, none, some, List, [], ◌∷◌, ◌==◌, contains, same,
  if◌then◌else◌, ltb,
}
use nebula_operator.Common.Effect.{
  M, Outcome, ok, err, panic, Error, not_found, reconcile, job_failed, other, ◌>>=◌, ◌>>◌, return,
  fail, crash, attempt,
}
use nebula_operator.Scheduler.PodName.{Name, int32_limit, all_digits, decimal}
use nebula_operator.Storaged.Api.{PodPhase, pending, running}
use nebula_operator.Condition.Status.{
  Condition, condition_true, is_status, get_condition, holds, is_node_ready_false_or_unknown,
}

-- A time is `none` where it is zero; a nil set of claims has no member.
pub record FailureHost : Type 0 where
  pub host : Name
  pub pvc_set : List ℕ
  pub pod_restarted : Bool
  pub pod_rebuilt : Bool
  pub node_down : Bool
  pub creation_time : ℕ
  pub confirmation_time : Option ℕ
  pub deletion_time : Option ℕ

abbrev pub Table : Type 0 → Type 0
Table A = List (Name × A)

abbrev pub Hosts : Type 0
Hosts = Table FailureHost

unfoldable pub lookup : {A : Type 0} → Table A → Name → Option A
lookup [] name = none
lookup ((n, a) ∷ table) name = if same n name then some a else lookup table name

-- `m[name] = a`
unfoldable pub put : {A : Type 0} → Table A → Name → A → Table A
put [] name a = (name, a) ∷ []
put ((n, old) ∷ table) name a =
    let rest = put table name a in if same n name then (n, a) ∷ table else (n, old) ∷ rest

-- `delete(m, name)`
unfoldable pub delete : {A : Type 0} → Table A → Name → Table A
delete [] name = []
delete ((n, a) ∷ table) name =
    let rest = delete table name in if same n name then rest else (n, a) ∷ rest

-- `terminating` where the pod has a deletion timestamp. Times are in nanoseconds.
pub record FailedPod : Type 0 where
  pub phase : PodPhase
  pub terminating : Bool
  pub created : ℕ
  pub node_name : ℕ
  pub conditions : List Condition

-- `deleting` where the claim has a deletion timestamp.
pub record Claim : Type 0 where
  pub uid : ℕ
  pub deleting : Bool
  pub finalizers : List ℕ

pub data HostStatus : Type 0 where
  online offline unknown : HostStatus

pub record ServiceHost : Type 0 where
  pub address : Name
  pub port : ℕ
  pub status : HostStatus

pub data FailoverCall : Type 0 where
  get_pod delete_pod list_pvcs : Name → FailoverCall
  get_node : ℕ → FailoverCall
  delete_pvc update_finalizer : ℕ → FailoverCall
  clock connect list_hosts disconnect : FailoverCall

-- The API server, the clock and the meta service after these calls, the last one first; `selector`
-- is the outcome of building a label selector, `is_pod_ready` the one of `podutils.IsPodReady`.
pub record FailoverServer : Type 0 where
  pub pod : List FailoverCall → Outcome FailedPod
  pub node : List FailoverCall → Outcome (List Condition)
  pub done : List FailoverCall → Outcome (Unit {0})
  pub pvcs : List FailoverCall → Outcome (List Claim)
  pub now : List FailoverCall → ℕ
  pub selector : Name → Outcome (Unit {0})
  pub is_pod_ready : FailedPod → Bool
  pub connected : List FailoverCall → Outcome (Unit {0})
  pub hosts_of : List FailoverCall → Outcome (List ServiceHost)
  pub range : List FailoverCall → Hosts → List Name

-- `failure_hosts` is `none` where the map is nil.
pub record Failures : Type 0 where
  pub failure_hosts : Option Hosts
  pub calls : List FailoverCall

abbrev pub entries : Option Hosts → Hosts
entries none = []
entries (some hosts) = hosts

abbrev pub request : {A : Type 0} → (List FailoverCall → Outcome A) → FailoverCall → M Failures A
request answer call w = (answer (call ∷ w.calls), record w { calls = call ∷ w.calls })

abbrev pub change : (Option Hosts → Option Hosts) → M Failures (Unit {0})
change f w = (ok tt, record w { failure_hosts = f w.failure_hosts })

-- An assignment to the map, which panics where it is nil.
abbrev pub put_host : Name → FailureHost → M Failures (Unit {0})
put_host name fh w = elim (w.failure_hosts) [
  | none ↦ (panic, w)
  | some hosts ↦ (ok tt, record w { failure_hosts = some (put hosts name fh) })
]

-- `PodScheduled` and `NodeReady`
abbrev pub pod_scheduled : ℕ
pod_scheduled = 0

abbrev pub node_ready : ℕ
node_ready = 1

abbrev pub is_phase_pending : PodPhase → Bool
is_phase_pending pending = true
is_phase_pending _ = false

abbrev pub is_phase_running : PodPhase → Bool
is_phase_running running = true
is_phase_running _ = false

unfoldable pub is_pod_pending : FailedPod → Bool
is_pod_pending pod = is_phase_pending pod.phase

unfoldable pub is_pod_terminating : FailedPod → Bool
is_pod_terminating pod = pod.terminating

unfoldable pub is_pod_condition_scheduled_true : List Condition → Bool
unfolding get_condition
is_pod_condition_scheduled_true conditions = holds (get_condition conditions pod_scheduled)

unfoldable pub is_node_down : List Condition → Bool
unfolding is_node_ready_false_or_unknown
is_node_down conditions = is_node_ready_false_or_unknown (some conditions) node_ready

-- What follows the last dash, or all of it where there is none: the last part of
-- `strings.Split(s, "-")`.
abbrev pub last_part : Name → Name → Name
last_part part [] = part
last_part part (c ∷ s) = if c == b'-' then last_part s s else last_part part s

abbrev pub is_empty : Name → Bool
is_empty [] = true
is_empty (c ∷ s) = false

-- An unsigned or signed decimal number below 2^31, as `strconv.ParseInt(o, 10, 32)` reads a part
-- without dashes: a leading plus is allowed, no digits are not.
unfoldable pub parse_ordinal : Name → Option ℕ
parse_ordinal [] = none
parse_ordinal (c ∷ s) =
    let digits = (if c == b'+' then s else c ∷ s) in
    if not (is_empty digits) && (all_digits digits && ltb (decimal 0 digits) int32_limit)
    then some (decimal 0 digits)
    else none

-- `none` stands for the ordinal -1.
unfoldable pub get_pod_ordinal : Name → Option ℕ
unfolding parse_ordinal
get_pod_ordinal name = parse_ordinal (last_part name name)

module _ (server : FailoverServer) where
  unfoldable pub is_pod_running_and_ready : FailedPod → Bool
  is_pod_running_and_ready pod = is_phase_running pod.phase && server.is_pod_ready pod

  unfoldable pub is_pod_healthy : FailedPod → Bool
  unfolding is_pod_running_and_ready is_pod_terminating
  is_pod_healthy pod = is_pod_running_and_ready pod && not (is_pod_terminating pod)

  abbrev pub time : M Failures ℕ
  time = request (λ calls. ok (server.now calls)) clock

  -- A request whose answer may be that there is no such object.
  abbrev pub unless_missing : {A : Type 0} → Outcome A → M Failures (Option A)
  unless_missing (ok a) = return (some a)
  unless_missing (err not_found) = return none
  unless_missing (err reconcile) = fail reconcile
  unless_missing (err job_failed) = fail job_failed
  unless_missing (err (other n)) = fail (other n)
  unless_missing panic = crash

  -- `GetPod` where the error `NotFound` is allowed: the pod is nil then.
  unfoldable pub find_pod : Name → M Failures (Option FailedPod)
  find_pod name = attempt (request server.pod (get_pod name)) >>= unless_missing

  abbrev pub select : Name → M Failures (Unit {0})
  select name w = (server.selector name, w)

  abbrev pub or_no_claims : Option (List Claim) → List Claim
  or_no_claims none = []
  or_no_claims (some pvcs) = pvcs

  unfoldable pub get_pod_and_pvcs : Name → M Failures (Option FailedPod × List Claim)
  unfolding find_pod
  get_pod_and_pvcs name = do
    pod ← find_pod name
    select name
    pvcs ← attempt (request server.pvcs (list_pvcs name)) >>= unless_missing
    return (pod, or_no_claims pvcs)

  abbrev pub range_hosts : M Failures (List Name)
  range_hosts w = (ok (server.range w.calls (entries w.failure_hosts)), w)

abbrev pub on_entry :
    {A : Type 0} → A → (FailureHost → M Failures A) → Option FailureHost → M Failures A
on_entry default body none = return default
on_entry default body (some fh) = body fh

-- One turn of `for podName, fh := range FailureHosts`: the entry is read when its turn comes.
abbrev pub visit : {A : Type 0} → A → (Name → FailureHost → M Failures A) → Name → M Failures A
visit default body name w = on_entry default (body name) (lookup (entries w.failure_hosts) name) w

unfoldable pub for_hosts :
    (Name → FailureHost → M Failures (Unit {0})) → List Name → M Failures (Unit {0})
for_hosts body [] = return tt
for_hosts body (name ∷ names) = do visit tt body name; for_hosts body names

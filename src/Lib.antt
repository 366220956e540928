-- ===== src/Lib.antt =====
-- The operator of NebulaGraph clusters on Kubernetes: its scheduler plugin, the controllers of the
-- storage component, the reconciliation of a cluster and the admission of one.
--
-- Parts and files (paths from the root of the repository):
-- - Scheduler: pkg/scheduler/nodezone, the plugin that spreads the pods of a group of three over
--   zones. `PodName` reads and prints pod names; `Cluster` is what the plugin reads through listers,
--   with PreFilter and Unreserve; `Zones` is getTopologyZones; `Filter` and `Permit` are those stages;
--   `Spread` puts Permit and the binding of pods together as a step relation.
-- - Nebula: pkg/nebula/meta_client.go. `World` is the state that the controllers share: the
--   NebulaCluster object and the calls made so far; `Meta` has retryOnError and the requests, `Jobs`
--   the admin jobs. A server is a function from the calls made to an answer, so that every server,
--   however it changes, is covered.
-- - Storaged: pkg/controller/component. `Balancer` is data_balancer.go, `Scaler` storaged_scaler.go
--   with PVCMark, `Updater` storaged_updater.go with getNextUpdatePod, `Leader` the transfer of
--   leaders, `Visit` the loop over spaces that they share, `Api` the API server and the clock.
-- - Failover: pkg/controller/component/{graphd,metad,storaged}_failover.go, failover_helper.go and the
--   parts of {graphd,metad,storaged}_cluster.go about failure hosts. `Hosts` has the failure hosts, the
--   pods and the requests; `Manager` the steps of Failover and Recovery, which the three components
--   share; `Detect` the detection of failure hosts and the choice between the two; `Storaged` the
--   balancing that the storage component adds; `Graphd` and `Metad` name the operations of the others.
-- - Controller: pkg/controller/nebulacluster. `Ready` is the condition updater, `Reconcile` the
--   control, whose managers are the operations of an interface.
-- - Condition: pkg/util/condition. The condition Ready is set through it.
-- - Webhook: pkg/webhook/nebulacluster and pkg/webhook/util/validation.
-- - CronBackup: pkg/controller/cronbackup. `Schedule` is mostRecentScheduleTime, with the schedule of
--   the cron library a function; `Sync` starts the next backup; `Expiry` finds the backups to
--   delete, with the sorting by byBackupStartTime a function; `Control` is the reconciliation, which calls
--   Sync and then cleans up.
-- - Maps: pkg/util/maputil. A map is the list of its entries in the order of a visit, and what holds of
--   its values holds for every order.
-- - Common: lists, tests and integers over native numbers, and `Effect`, Go code with errors and
--   panics as a function from a state to an outcome and a state.
-- - Examples: concrete clusters on which the theorems are run.
--
-- The Scaler calls the Balancer for each space and the Balancer the job requests of Nebula; the
-- Updater asks Nebula for the leaders; a failover of the storage component ends in the Balancer; the
-- Controller runs the managers and then sets the condition.
--
-- Choices. Strings that are compared or parsed are lists of bytes; hosts, spaces, revisions and
-- reasons that are only compared go by numbers. A slice that may be nil is an Option. Times are
-- nanoseconds. An int that may be negative is an integer without its bound; the ordinals read from
-- names keep the bound of 32 bits. Loops are structural on the list or the number of pods that they
-- run over; only the loop over missed schedule times has fuel, one step for each nanosecond up to now,
-- which is enough since the schedule goes forward; the reconciliations that call Failover again have as
-- fuel the restarts and rebuilds that are left. The order in which Go visits a map is a parameter. A nil
-- dereference and an index out of range are the outcome `panic`.
--
-- Not modelled: the reconcilers of the single components but for their failure hosts, backups and
-- restores, negative reserved times of cron backups, the autoscaler, the volume provisioner and the
-- command line tool; AllKeysExist and SymmetricDifference of pkg/util/maputil; log lines, messages of errors and the construction of Kubernetes objects. The goroutines of
-- concurrentTransLeader (pkg/util/async) are run one after the other.
pub mod Common
pub mod Scheduler
pub mod Nebula
pub mod Storaged
pub mod Webhook
pub mod Condition
pub mod Controller
pub mod CronBackup
pub mod Failover
pub mod Examples
pub mod Maps

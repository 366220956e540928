-- ===== src/Storaged/Leader.antt =====
-- pkg/controller/component/storaged_updater.go: the transfer of partition leaders away from a pod
-- that is to be restarted.
pub mod Peers
pub mod Workers
pub mod Trace
use nebula_operator.Common.{
  ℕ, zero, suc, ◌+◌, ◌%◌, Bool, true, false, Option, none, some, List, [], ◌∷◌, ◌++◌, ◌==◌,
  get_elem?, length, if◌then◌else◌,
}
use nebula_operator.Common.Effect.{
  M, Outcome, ok, err, panic, Error, reconcile, ◌>>=◌, ◌>>◌, return, fail, crash, attempt,
}
use nebula_operator.Nebula.World.{
  World, Call, Cluster, storage_connect, storage_disconnect, trans_leader, ask, get_cluster,
}
use nebula_operator.Nebula.Meta.{MetaServer, PartItem, get_space_parts}

-- The storage service: its connections, and the host that a transfer names instead (`none` for "").
pub record StorageServer : Type 0 where
  pub storage_connected : List Call → Outcome (Unit {0})
  pub transferred : List Call → Outcome (Option ℕ)

-- The loop of `getNewLeaderFromPeers` from the index `i` on.
unfoldable pub next_peer : ℕ → List ℕ → ℕ → List ℕ → Option ℕ
next_peer leader peers i [] = none
next_peer leader peers i (p ∷ rest) =
    if p == leader
    then get_elem? peers ((i + 1) % length peers)
    else next_peer leader peers (i + 1) rest

-- The peer that follows the leader, `none` for nil.
unfoldable pub get_new_leader_from_peers : ℕ → List ℕ → Option ℕ
unfolding next_peer
get_new_leader_from_peers leader peers = next_peer leader peers 0 peers

module _ (storage : StorageServer) (meta : MetaServer) where
  -- A nil `newLeader` is dereferenced.
  unfoldable pub transfer : ℕ → ℕ → Option ℕ → M World (Unit {0})
  transfer s part none = crash
  transfer s part (some new_leader) = do
    named ← ask storage.transferred (trans_leader s part new_leader)
    elim named [
      | none ↦ return tt
      | some host ↦ do again ← ask storage.transferred (trans_leader s part host); return tt
    ]

  -- One partition: it is transferred if the host leads it.
  unfoldable pub transfer_part : ℕ → ℕ → PartItem → M World (Unit {0})
  unfolding transfer get_new_leader_from_peers
  transfer_part host s item = elim item.leader [
    | none ↦ return tt
    | some leader ↦
        if leader == host
        then transfer s item.part_id (get_new_leader_from_peers leader item.peers)
        else return tt
  ]

  unfoldable pub transfer_parts : ℕ → ℕ → List PartItem → M World (Unit {0})
  unfolding transfer_part
  transfer_parts host s [] = return tt
  transfer_parts host s (item ∷ items) = do transfer_part host s item; transfer_parts host s items

  unfoldable pub transfer_spaces : ℕ → List (ℕ × List PartItem) → M World (Unit {0})
  unfolding transfer_parts
  transfer_spaces host [] = return tt
  transfer_spaces host ((s, items) ∷ rest) = do
    transfer_parts host s items
    transfer_spaces host rest

  -- The deferred `Disconnect`, whose error is only logged.
  abbrev disconnecting : {A : Type 0} → ℕ → M World A → M World A
  disconnecting host body w =
      ((body w).0, record ((body w).1) { calls = storage_disconnect host ∷ (body w).1.calls })

  -- A group of workers: each runs, whatever the others return, and the errors are gathered. The
  -- workers run here one after the other, in the order in which they were added.
  abbrev gathered : Outcome (Unit {0}) → M World (Unit {0}) → M World (Unit {0})
  gathered (ok _) rest = rest
  gathered (err e) rest = do r ← attempt rest; fail e
  gathered panic rest = crash

  unfoldable pub run_group : List (M World (Unit {0})) → M World (Unit {0})
  run_group [] = return tt
  run_group (worker ∷ workers) = do r ← attempt worker; gathered r (run_group workers)

  -- A worker connects only for a partition that the host leads.
  unfoldable pub part_worker : ℕ → ℕ → PartItem → M World (Unit {0})
  unfolding transfer get_new_leader_from_peers
  part_worker host s item = elim item.leader [
    | none ↦ return tt
    | some leader ↦
        if leader == host
        then (do
          ask storage.storage_connected (storage_connect host)
          disconnecting host
              (transfer s item.part_id (get_new_leader_from_peers leader item.peers)))
        else return tt
  ]

  unfoldable part_workers : ℕ → ℕ → List PartItem → List (M World (Unit {0}))
  unfolding part_worker
  part_workers host s [] = []
  part_workers host s (item ∷ items) = part_worker host s item ∷ part_workers host s items

  unfoldable space_workers : ℕ → List (ℕ × List PartItem) → List (M World (Unit {0}))
  unfolding part_workers run_group
  space_workers host [] = []
  space_workers host ((s, items) ∷ rest) =
      run_group (part_workers host s items) ∷ space_workers host rest

  unfoldable pub concurrent_trans_leader : ℕ → M World (Unit {0})
  unfolding space_workers run_group
  concurrent_trans_leader host = do
    items ← get_space_parts meta
    run_group (space_workers host items)

  unfoldable pub trans_leader_if_necessary : ℕ → M World (Unit {0})
  unfolding concurrent_trans_leader transfer_spaces
  trans_leader_if_necessary host = do
    c ← get_cluster
    if c.concurrent_transfer then concurrent_trans_leader host else do
      items ← get_space_parts meta
      ask storage.storage_connected (storage_connect host)
      disconnecting host (transfer_spaces host items)

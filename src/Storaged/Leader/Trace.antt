-- ===== src/Storaged/Leader/Trace.antt =====
-- pkg/controller/component/storaged_updater.go: the transfer of leaders sets no partition.
use nebula_operator.Common.{ℕ, ◌==◌, Option, none, some, List, [], ◌∷◌, if◌then◌else◌}
use nebula_operator.Common.Effect.{M, Outcome, ok, err, panic, ◌>>=◌, ◌>>◌, return, fail, attempt}
use nebula_operator.Nebula.World.{
  World, storage_connect, storage_disconnect, trans_leader, ask, get_cluster,
}
use nebula_operator.Nebula.Meta.{MetaServer, PartItem, get_space_parts}
use nebula_operator.Nebula.Trace.{
  Guards, bind-Guards, constant-Guards, ask-Guards, attempt-Guards, if-Guards, after-Guards,
  get_cluster-Guards, get_space_parts-Guards,
}
use nebula_operator.Storaged.Leader.{
  StorageServer, transfer, transfer_part, transfer_parts, transfer_spaces, disconnecting, gathered,
  run_group, part_worker, part_workers, space_workers, concurrent_trans_leader,
  trans_leader_if_necessary, get_new_leader_from_peers,
}

module _ (G : ℕ → Type 0) (storage : StorageServer) (meta : MetaServer) where
  skip-Guards : Guards G (return tt)
  skip-Guards = constant-Guards G (ok tt)

  transfer-Guards : (s part : ℕ) (o : Option ℕ) → Guards G (transfer storage meta s part o)
  unfolding transfer
  transfer-Guards s part none = constant-Guards G panic
  transfer-Guards s part (some new_leader) =
      bind-Guards G (ask storage.transferred (trans_leader s part new_leader)) _
        (ask-Guards G storage.transferred (trans_leader s part new_leader) tt) again
    where
      again :
          (named : Option ℕ)
          → Guards G (elim named [
            | none ↦ return tt
            | some host ↦ do again ← ask storage.transferred (trans_leader s part host); return tt
          ])
      again none = skip-Guards
      again (some host) =
          bind-Guards G (ask storage.transferred (trans_leader s part host)) (λ _. return tt)
            (ask-Guards G storage.transferred (trans_leader s part host) tt) (λ _. skip-Guards)

  transfer_part-Guards :
      (host s : ℕ) (item : PartItem) → Guards G (transfer_part storage meta host s item)
  unfolding transfer_part
  transfer_part-Guards host s item = go item.leader
    where
      go :
          (o : Option ℕ)
          → Guards G (elim o [
            | none ↦ return tt
            | some leader ↦
                if leader == host
                then transfer storage meta s item.part_id
                    (get_new_leader_from_peers leader item.peers)
                else return tt
          ])
      go none = skip-Guards
      go (some leader) =
          if-Guards G (leader == host) _ (return tt)
            (λ _. transfer-Guards s item.part_id (get_new_leader_from_peers leader item.peers))
            (λ _. skip-Guards)

  transfer_parts-Guards :
      (host s : ℕ) (items : List PartItem) → Guards G (transfer_parts storage meta host s items)
  unfolding transfer_parts
  transfer_parts-Guards host s [] = skip-Guards
  transfer_parts-Guards host s (item ∷ items) =
      bind-Guards G (transfer_part storage meta host s item)
        (λ _. transfer_parts storage meta host s items) (transfer_part-Guards host s item)
        (λ _. transfer_parts-Guards host s items)

  transfer_spaces-Guards :
      (host : ℕ) (items : List (ℕ × List PartItem))
      → Guards G (transfer_spaces storage meta host items)
  unfolding transfer_spaces
  transfer_spaces-Guards host [] = skip-Guards
  transfer_spaces-Guards host ((s, items) ∷ rest) =
      bind-Guards G (transfer_parts storage meta host s items)
        (λ _. transfer_spaces storage meta host rest) (transfer_parts-Guards host s items)
        (λ _. transfer_spaces-Guards host rest)

  AllRuns : List (M World (Unit {0})) → Type 0
  AllRuns [] = Unit
  AllRuns (m ∷ ms) = Guards G m × AllRuns ms

  gathered-Guards :
      (r : Outcome (Unit {0})) (rest : M World (Unit {0}))
      → Guards G rest
      → Guards G (gathered storage meta r rest)
  gathered-Guards (ok a) rest k = k
  gathered-Guards (err e) rest k =
      bind-Guards G (attempt rest) (λ _. fail e) (attempt-Guards G rest k)
        (λ _. constant-Guards G (err e))
  gathered-Guards panic rest k = constant-Guards G panic

  run_group-Guards :
      (workers : List (M World (Unit {0})))
      → AllRuns workers
      → Guards G (run_group storage meta workers)
  unfolding run_group AllRuns
  run_group-Guards [] all = skip-Guards
  run_group-Guards (worker ∷ workers) all =
      bind-Guards G (attempt worker) _ (attempt-Guards G worker all.0)
        (λ r. gathered-Guards r (run_group storage meta workers) (run_group-Guards workers all.1))

  part_worker-Guards :
      (host s : ℕ) (item : PartItem) → Guards G (part_worker storage meta host s item)
  unfolding part_worker
  part_worker-Guards host s item = go item.leader
    where
      go :
          (o : Option ℕ)
          → Guards G (elim o [
            | none ↦ return tt
            | some leader ↦
                if leader == host
                then (do
                  ask storage.storage_connected (storage_connect host)
                  disconnecting storage meta host (
                      transfer storage meta s item.part_id
                        (get_new_leader_from_peers leader item.peers)))
                else return tt
          ])
      go none = skip-Guards
      go (some leader) =
          if-Guards G (leader == host) _ (return tt)
            (λ _.
              bind-Guards G (ask storage.storage_connected (storage_connect host)) _
                (ask-Guards G storage.storage_connected (storage_connect host) tt)
                (λ _.
                  after-Guards G
                    (transfer storage meta s item.part_id
                      (get_new_leader_from_peers leader item.peers))
                    (storage_disconnect host) tt
                    (transfer-Guards s item.part_id (get_new_leader_from_peers leader item.peers))))
            (λ _. skip-Guards)

  part_workers-AllRuns :
      (host s : ℕ) (items : List PartItem) → AllRuns (part_workers storage meta host s items)
  unfolding part_workers AllRuns
  part_workers-AllRuns host s [] = tt
  part_workers-AllRuns host s (item ∷ items) =
      (part_worker-Guards host s item, part_workers-AllRuns host s items)

  space_workers-AllRuns :
      (host : ℕ) (items : List (ℕ × List PartItem))
      → AllRuns (space_workers storage meta host items)
  unfolding space_workers AllRuns
  space_workers-AllRuns host [] = tt
  space_workers-AllRuns host ((s, items) ∷ rest) = (
    run_group-Guards (part_workers storage meta host s items) (part_workers-AllRuns host s items),
    space_workers-AllRuns host rest,
  )

  pub trans_leader_if_necessary-Guards :
      (host : ℕ) → Guards G (trans_leader_if_necessary storage meta host)
  unfolding trans_leader_if_necessary concurrent_trans_leader
  trans_leader_if_necessary-Guards host = bind-Guards G get_cluster _ (get_cluster-Guards G) (λ c.
      if-Guards G c.concurrent_transfer (concurrent_trans_leader storage meta host) _
        (λ _. bind-Guards G (get_space_parts meta) _ (get_space_parts-Guards G meta) (λ items.
          run_group-Guards (space_workers storage meta host items)
            (space_workers-AllRuns host items)))
        (λ _. bind-Guards G (get_space_parts meta) _ (get_space_parts-Guards G meta) (λ items.
          bind-Guards G (ask storage.storage_connected (storage_connect host)) _
            (ask-Guards G storage.storage_connected (storage_connect host) tt)
            (λ _.
              after-Guards G (transfer_spaces storage meta host items) (storage_disconnect host) tt
                (transfer_spaces-Guards host items)))))

-- ===== src/Nebula/Meta.antt =====
-- pkg/nebula/meta_client.go: the requests of the meta client, with the reconnection to a changed
-- leader and the error codes that count as success.
use nebula_operator.Common.{
  ℕ, zero, suc, ◌+◌, Bool, true, false, Option, none, some, List, [], ◌∷◌, ◌++◌, contains, ◌==◌,
  if◌then◌else◌,
}
use nebula_operator.Common.Effect.{M, Outcome, other, ◌>>=◌, ◌>>◌, return, fail}
use nebula_operator.Nebula.World.{
  World, Call, reconnect, list_spaces, list_hosts, get_space, list_parts, run_admin_job, drop_hosts,
  add, leader_balance, ask,
}

pub data Code : Type 0 where
  succeeded leader_changed existed no_hosts : Code
  failed : Code

-- A response: its code, the leader it names, and what the request asked for.
pub record Response (A : Type 0) : Type 0 where
  pub code : Code
  pub leader : Option ℕ
  pub payload : A

pub data JobStatus : Type 0 where
  finished failed queue : JobStatus

pub record AdminJobResult : Type 0 where
  pub job_id : ℕ
  pub job_desc : List JobStatus

pub record SpaceDetail : Type 0 where
  pub replica_factor : ℕ
  pub partition_num : ℕ

-- The hosts that lead the partition and that hold a replica of it.
pub record PartItem : Type 0 where
  pub part_id : ℕ
  pub leader : Option ℕ
  pub peers : List ℕ

-- `leads` are the spaces for which the host has an entry in its leader map.
pub record HostItem : Type 0 where
  pub online : Bool
  pub leads : List ℕ

-- The meta service: what it answers after these calls.
pub record MetaServer : Type 0 where
  pub connected : List Call → Outcome (Unit {0})
  pub spaces : List Call → Outcome (Response (List ℕ))
  pub space : List Call → Outcome (Response SpaceDetail)
  pub parts : List Call → Outcome (Response (List PartItem))
  pub hosts : List Call → Outcome (Response (List HostItem))
  pub job : List Call → Outcome (Response AdminJobResult)
  pub dropped : List Call → Outcome (Response (Unit {0}))

module _ (m : MetaServer) where
  -- The second attempt, after the reconnection.
  unfoldable pub accept : {A : Type 0} → Code → A → M World A
  accept succeeded a = return a
  accept existed a = return a
  accept no_hosts a = return a
  accept leader_changed a = fail (other 3)
  accept failed a = fail (other 3)

  unfoldable pub settle :
      {A : Type 0} → (List Call → Outcome (Response A)) → Call → Code → Option ℕ → A → M World A
  unfolding accept
  settle answer call succeeded leader a = return a
  settle answer call existed leader a = return a
  settle answer call no_hosts leader a = return a
  settle answer call failed leader a = fail (other 2)
  settle answer call leader_changed none a = fail (other 1)
  settle answer call leader_changed (some leader) a = do
    ask m.connected (reconnect leader)
    r ← ask answer call
    accept r.code r.payload

  unfoldable pub retry_on_error :
      {A : Type 0} → (List Call → Outcome (Response A)) → Call → M World A
  unfolding settle
  retry_on_error answer call = do r ← ask answer call; settle answer call r.code r.leader r.payload

  unfoldable pub meta_list_spaces : M World (List ℕ)
  unfolding retry_on_error
  meta_list_spaces = retry_on_error m.spaces list_spaces

  unfoldable pub meta_drop_hosts : List ℕ → M World (Unit {0})
  unfolding retry_on_error
  meta_drop_hosts hosts = retry_on_error m.dropped (drop_hosts hosts)

  -- `for partID := int32(1); partID <= n; partID++`
  abbrev pub part_ids : ℕ → List ℕ
  part_ids zero = []
  part_ids (suc n) = part_ids n ++ suc n ∷ []

  -- The parts of each space, but for spaces with one replica.
  unfoldable pub parts_of : List ℕ → M World (List (ℕ × List PartItem))
  unfolding retry_on_error
  parts_of [] = return []
  parts_of (s ∷ rest) = do
    detail ← retry_on_error m.space (get_space s)
    if detail.replica_factor == 1 then parts_of rest else do
      items ← retry_on_error m.parts (list_parts s (part_ids detail.partition_num))
      more ← parts_of rest
      return ((s, items) ∷ more)

  unfoldable pub get_space_parts : M World (List (ℕ × List PartItem))
  unfolding meta_list_spaces parts_of
  get_space_parts = do spaces ← meta_list_spaces; parts_of spaces

  abbrev leads_here : ℕ → PartItem → Bool
  leads_here leader_host item = elim item.leader [ none ↦ false | some l ↦ l == leader_host ]

  abbrev pub count_items : ℕ → List PartItem → ℕ
  count_items leader_host [] = 0
  count_items leader_host (item ∷ items) =
      (if leads_here leader_host item then 1 else 0) + count_items leader_host items

  abbrev pub count_leaders : ℕ → List (ℕ × List PartItem) → ℕ
  count_leaders leader_host [] = 0
  count_leaders leader_host ((s, items) ∷ rest) =
      count_items leader_host items + count_leaders leader_host rest

  unfoldable pub get_leader_count : ℕ → M World ℕ
  get_leader_count leader_host = do
    parts ← get_space_parts
    return (count_leaders leader_host parts)

  unfoldable pub meta_balance_leader : ℕ → M World (Unit {0})
  unfolding retry_on_error
  meta_balance_leader s = do
    result ←
        retry_on_error m.job
          (run_admin_job (record { space = s; op = add; kind = leader_balance; paras = [] }))
    return tt

  -- Every host that is online leads a part of the space.
  abbrev pub all_lead : ℕ → List HostItem → Bool
  all_lead s [] = true
  all_lead s (h ∷ hs) =
      if h.online then (if contains h.leads s then all_lead s hs else false) else all_lead s hs

  unfoldable pub is_leader_balanced : ℕ → M World Bool
  unfolding retry_on_error
  is_leader_balanced s = do hosts ← retry_on_error m.hosts list_hosts; return (all_lead s hosts)

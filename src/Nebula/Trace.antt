-- ===== src/Nebula/Trace.antt =====
-- pkg/controller/component/storaged_updater.go and pkg/nebula/meta_client.go: runs that set the partition
-- of the workload only where they may.
use nebula_operator.Common.{
  ℕ, ◌==◌, ◌≡◌, refl, Bool, true, false, Option, none, some, List, [], ◌∷◌, All, if◌then◌else◌,
}
use nebula_operator.Common.Effect.{
  M, Outcome, ok, err, panic, other, ◌>>=◌, then_run, return, attempt,
}
use nebula_operator.Nebula.World.{
  World, Call, set_partition, list_spaces, reconnect, get_space, list_parts, ask, get_cluster,
}
use nebula_operator.Nebula.Meta.{
  MetaServer, Response, Code, succeeded, leader_changed, existed, no_hosts, failed, accept, settle,
  retry_on_error, meta_list_spaces, parts_of, part_ids, get_space_parts, get_leader_count,
  count_leaders, SpaceDetail,
}

-- Every partition that is set is one that may be.
abbrev pub Guarded : (ℕ → Type 0) → Call → Type 0
Guarded G (set_partition ordinal) = G ordinal
Guarded G _ = Unit

-- A run whose partitions may be set if those before it might.
unfoldable pub Guards : (ℕ → Type 0) → {A : Type 0} → M World A → Type 0
Guards G m = (w : World) → All (Guarded G) w.calls → All (Guarded G) (m w).1.calls

module _ (G : ℕ → Type 0) where
  pub bind_knowing-Guards :
      {A B : Type 0} (P : A → Type 0) (m : M World A) (f : A → M World B)
      → ((w v : World) (a : A) → m w ≡ (ok a, v) → P a)
      → Guards G m
      → ((a : A) → P a → Guards G (f a))
      → Guards G (m >>= f)
  unfolding Guards
  bind_knowing-Guards {A} {B} P m f known om of w i = go (m w) refl (om w i)
    where
      go :
          (r : Outcome A × World)
          → m w ≡ r
          → All (Guarded G) r.1.calls
          → All (Guarded G) (then_run r f).1.calls
      go (ok a, u) e j = of a (known w u a e) u j
      go (err x, u) e j = j
      go (panic, u) e j = j

  pub bind-Guards :
      {A B : Type 0} (m : M World A) (f : A → M World B)
      → Guards G m
      → ((a : A) → Guards G (f a))
      → Guards G (m >>= f)
  bind-Guards m f om of = bind_knowing-Guards (λ _. Unit {0}) m f (λ w v a e. tt) om (λ a _. of a)

  pub constant-Guards : {A : Type 0} (o : Outcome A) → Guards G (λ w. (o, w))
  unfolding Guards
  constant-Guards o w i = i

  pub ask-Guards :
      {A : Type 0} (answer : List Call → Outcome A) (call : Call)
      → Guarded G call
      → Guards G (ask answer call)
  unfolding Guards
  ask-Guards answer call g w i = (g, i)

  pub attempt-Guards : {A : Type 0} (m : M World A) → Guards G m → Guards G (attempt m)
  unfolding Guards
  attempt-Guards {A} m om w i = go (m w) (om w i)
    where
      go :
          (r : Outcome A × World)
          → All (Guarded G) r.1.calls
          → All (Guarded G) (attempt (λ (_ : World). r) w).1.calls
      go (ok a, u) j = j
      go (err x, u) j = j
      go (panic, u) j = j

  pub if-Guards :
      {A : Type 0} (b : Bool) (m n : M World A)
      → (b ≡ true → Guards G m)
      → (b ≡ false → Guards G n)
      → Guards G (if b then m else n)
  if-Guards true m n om on = om refl
  if-Guards false m n om on = on refl

  pub get_cluster-Guards : Guards G get_cluster
  unfolding Guards
  get_cluster-Guards w i = i

  -- A call that is made after a run, as a deferred one.
  pub after-Guards :
      {A : Type 0} (m : M World A) (call : Call)
      → Guarded G call
      → Guards G m
      → Guards G (λ w. ((m w).0, record ((m w).1) { calls = call ∷ (m w).1.calls }))
  unfolding Guards
  after-Guards m call g om w i = (g, om w i)

  module _ (meta : MetaServer) where
    accept-Guards : {A : Type 0} (c : Code) (a : A) → Guards G (accept meta c a)
    unfolding accept
    accept-Guards succeeded a = constant-Guards (ok a)
    accept-Guards existed a = constant-Guards (ok a)
    accept-Guards no_hosts a = constant-Guards (ok a)
    accept-Guards leader_changed a = constant-Guards (err (other 3))
    accept-Guards failed a = constant-Guards (err (other 3))

    settle-Guards :
        {A : Type 0} (answer : List Call → Outcome (Response A)) (call : Call)
        → Guarded G call
        → (c : Code) (leader : Option ℕ) (a : A) → Guards G (settle meta answer call c leader a)
    unfolding settle
    settle-Guards answer call g succeeded leader a = constant-Guards (ok a)
    settle-Guards answer call g existed leader a = constant-Guards (ok a)
    settle-Guards answer call g no_hosts leader a = constant-Guards (ok a)
    settle-Guards answer call g failed leader a = constant-Guards (err (other 2))
    settle-Guards answer call g leader_changed none a = constant-Guards (err (other 1))
    settle-Guards answer call g leader_changed (some leader) a =
        bind-Guards (ask meta.connected (reconnect leader)) _
          (ask-Guards meta.connected (reconnect leader) tt)
          (λ _.
            bind-Guards (ask answer call) (λ r. accept meta r.code r.payload)
              (ask-Guards answer call g) (λ r. accept-Guards r.code r.payload))

    retry_on_error-Guards :
        {A : Type 0} (answer : List Call → Outcome (Response A)) (call : Call)
        → Guarded G call
        → Guards G (retry_on_error meta answer call)
    unfolding retry_on_error
    retry_on_error-Guards answer call g =
        bind-Guards (ask answer call) _ (ask-Guards answer call g)
          (λ r. settle-Guards answer call g r.code r.leader r.payload)

    parts_of-Guards : (spaces : List ℕ) → Guards G (parts_of meta spaces)
    unfolding parts_of
    parts_of-Guards [] = constant-Guards (ok [])
    parts_of-Guards (s ∷ rest) =
        bind-Guards (retry_on_error meta meta.space (get_space s)) _
          (retry_on_error-Guards meta.space (get_space s) tt)
          (λ detail. more (detail.replica_factor == 1) detail (parts_of-Guards rest))
      where
        more :
            (b : Bool) (detail : SpaceDetail)
            → Guards G (parts_of meta rest)
            → Guards G (
                if b then parts_of meta rest else do
                  items ←
                      retry_on_error meta meta.parts
                        (list_parts s (part_ids meta detail.partition_num))
                  more ← parts_of meta rest
                  return ((s, items) ∷ more))
        more true detail k = k
        more false detail k =
            bind-Guards
              (retry_on_error meta meta.parts (list_parts s (part_ids meta detail.partition_num))) _
              (retry_on_error-Guards meta.parts (list_parts s (part_ids meta detail.partition_num))
                tt)
              (λ items.
                bind-Guards (parts_of meta rest) (λ more. return ((s, items) ∷ more)) k
                  (λ more. constant-Guards (ok ((s, items) ∷ more))))

    pub get_space_parts-Guards : Guards G (get_space_parts meta)
    unfolding get_space_parts meta_list_spaces
    get_space_parts-Guards =
        bind-Guards (meta_list_spaces meta) (parts_of meta)
          (retry_on_error-Guards meta.spaces list_spaces tt) parts_of-Guards

    pub get_leader_count-Guards : (host : ℕ) → Guards G (get_leader_count meta host)
    unfolding get_leader_count
    get_leader_count-Guards host =
        bind-Guards (get_space_parts meta) (λ parts. return (count_leaders meta host parts))
          get_space_parts-Guards (λ parts. constant-Guards (ok (count_leaders meta host parts)))

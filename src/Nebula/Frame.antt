-- ===== src/Nebula/Frame.antt =====
-- pkg/nebula/meta_client.go: no request of the meta client changes the NebulaCluster object.
use nebula_operator.Common.{
  ℕ, ◌≡◌, refl, ◌∙◌, Bool, true, false, Option, none, some, List, if◌then◌else◌,
}
use nebula_operator.Common.Effect.{M, Outcome, ok, err, panic, ◌>>=◌, then_run}
use nebula_operator.Nebula.World.{World, Call, reconnect, ask}
use nebula_operator.Nebula.Meta.{
  MetaServer, Response, Code, succeeded, leader_changed, existed, no_hosts, failed, accept, settle,
  retry_on_error, meta_balance_leader, meta_list_spaces, is_leader_balanced,
}

-- The object is the same after the run, however it ends.
abbrev pub Keeps : {A : Type 0} → M World A → Type 0
Keeps m = (w : World) → (m w).1.cluster ≡ w.cluster

Keeps-then :
    {A B : Type 0} (r : Outcome A × World) (f : A → M World B)
    → ((a : A) → Keeps (f a))
    → (then_run r f).1.cluster ≡ r.1.cluster
Keeps-then (ok a, w) f k = k a w
Keeps-then (err e, w) f k = refl
Keeps-then (panic, w) f k = refl

pub Keeps->>= :
    {A B : Type 0} (m : M World A) (f : A → M World B)
    → Keeps m
    → ((a : A) → Keeps (f a))
    → Keeps (m >>= f)
Keeps->>= m f h k w = Keeps-then (m w) f k ∙ h w

pub Keeps-if :
    {A : Type 0} (b : Bool) (m n : M World A) → Keeps m → Keeps n → Keeps (if b then m else n)
Keeps-if true m n h k = h
Keeps-if false m n h k = k

module _ (meta : MetaServer) where
  accept-Keeps : {A : Type 0} (c : Code) (a : A) → Keeps (accept meta c a)
  unfolding accept
  accept-Keeps succeeded a w = refl
  accept-Keeps existed a w = refl
  accept-Keeps no_hosts a w = refl
  accept-Keeps leader_changed a w = refl
  accept-Keeps failed a w = refl

  settle-Keeps :
      {A : Type 0} (answer : List Call → Outcome (Response A)) (call : Call) (c : Code)
      (leader : Option ℕ) (a : A)
      → Keeps (settle meta answer call c leader a)
  unfolding settle
  settle-Keeps answer call succeeded leader a w = refl
  settle-Keeps answer call existed leader a w = refl
  settle-Keeps answer call no_hosts leader a w = refl
  settle-Keeps answer call failed leader a w = refl
  settle-Keeps answer call leader_changed none a w = refl
  settle-Keeps {A} answer call leader_changed (some leader) a w =
      Keeps->>= (ask meta.connected (reconnect leader)) _ (λ w. refl)
        (λ _.
          Keeps->>= (ask answer call) (λ r. accept meta r.code r.payload) (λ w. refl)
            (λ r. accept-Keeps r.code r.payload))
        w

  pub retry_on_error-Keeps :
      {A : Type 0} (answer : List Call → Outcome (Response A)) (call : Call)
      → Keeps (retry_on_error meta answer call)
  unfolding retry_on_error
  retry_on_error-Keeps answer call =
      Keeps->>= (ask answer call) _ (λ w. refl)
        (λ r. settle-Keeps answer call r.code r.leader r.payload)

  pub meta_balance_leader-Keeps : (s : ℕ) → Keeps (meta_balance_leader meta s)
  unfolding meta_balance_leader
  meta_balance_leader-Keeps s =
      Keeps->>= (retry_on_error meta meta.job _) _ (retry_on_error-Keeps meta.job _) (λ _ w. refl)

  pub meta_list_spaces-Keeps : Keeps (meta_list_spaces meta)
  unfolding meta_list_spaces
  meta_list_spaces-Keeps = retry_on_error-Keeps meta.spaces _

  pub is_leader_balanced-Keeps : (s : ℕ) → Keeps (is_leader_balanced meta s)
  unfolding is_leader_balanced
  is_leader_balanced-Keeps s =
      Keeps->>= (retry_on_error meta meta.hosts _) _ (retry_on_error-Keeps meta.hosts _)
        (λ _ w. refl)

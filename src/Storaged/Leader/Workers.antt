-- ===== src/Storaged/Leader/Workers.antt =====
-- pkg/util/async/group.go: when a group of workers returns no error.
use nebula_operator.Common.{◌≡◌, refl, ap, ◌∙◌, List, [], ◌∷◌, arith}
use nebula_operator.Common.Effect.{M, Outcome, ok, err, panic, fail, attempt, >>=-eq-ok, attempt_ok}
use nebula_operator.Nebula.World.{World}
use nebula_operator.Nebula.Meta.{MetaServer}
use nebula_operator.Storaged.Leader.{StorageServer, gathered, run_group}

-- Each worker returns nil, in the state that the one before left.
abbrev AllReturn : List (M World (Unit {0})) → World → World → Type 0
AllReturn [] w v = w ≡ v
AllReturn (m ∷ ms) w v = (u : World) × (m w ≡ (ok tt, u)) × AllReturn ms u v

module _ (storage : StorageServer) (meta : MetaServer) where
  gathered_ok :
      (r : Outcome (Unit {0})) (rest : M World (Unit {0})) (w v : World)
      → gathered storage meta r rest w ≡ (ok tt, v)
      → (r ≡ ok tt) × (rest w ≡ (ok tt, v))
  gathered_ok (ok tt) rest w v h = (refl, h)
  gathered_ok (err e) rest w v h =
      let (_, u, _, k) = >>=-eq-ok (attempt rest) (λ _. fail e) w v tt h in absurd (ground arith)
  gathered_ok panic rest w v h = absurd (ground arith)

  -- A group of workers returns nil only if each of its workers returned nil.
  run_group_ok :
      (workers : List (M World (Unit {0}))) (w v : World)
      → run_group storage meta workers w ≡ (ok tt, v)
      → AllReturn workers w v
  unfolding run_group
  run_group_ok [] w v h = ap (λ (p : Outcome (Unit {0}) × World). p.1) h
  run_group_ok (worker ∷ workers) w v h =
      let (r, u, e, k) =
        >>=-eq-ok (attempt worker) (λ r. gathered storage meta r (run_group storage meta workers)) w
          v tt h in
      let (returned, rest) = gathered_ok r (run_group storage meta workers) u v k in
      (
        u,
        attempt_ok worker w u tt (e ∙ ap (λ (o : Outcome (Unit {0})). (ok o, u)) returned),
        run_group_ok workers u v rest,
      )

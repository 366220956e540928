-- ===== src/Failover/Manager/Steps.antt =====
-- pkg/controller/component/{graphd,metad,storaged}_failover.go: the steps that the failure hosts have still
-- to take.
use nebula_operator.Common.{
  ℕ, suc, ◌+◌, Bool, true, false, some, [], ◌∷◌, ◌≡◌, if◌then◌else◌, arith, same,
}
use nebula_operator.Scheduler.PodName.{Name}
use nebula_operator.Failover.Hosts.{FailureHost, Hosts, lookup, put}
use nebula_operator.Failover.Manager.Moves.{HostStep, restart, rebuild}

-- The steps that a host has still to take, and all hosts together.
abbrev pub one_unless : Bool → ℕ
one_unless true = 0
one_unless false = 1

abbrev pub steps_left : Hosts → ℕ
steps_left [] = 0
steps_left ((name, fh) ∷ hosts) =
    one_unless fh.pod_restarted + one_unless fh.pod_rebuilt + steps_left hosts

step_fewer :
    (fh fh' : FailureHost)
    → HostStep fh fh'
    → suc (one_unless fh'.pod_restarted + one_unless fh'.pod_rebuilt)
      ≡ one_unless fh.pod_restarted + one_unless fh.pod_rebuilt
step_fewer fh _ (restart _ down r) = rw r (omega arith)
step_fewer fh _ (rebuild _ now r) = rw r (omega arith)

put_step :
    (b : Bool) (n name : Name) (old fh fh' : FailureHost) (hosts changed : Hosts)
    → HostStep fh fh'
    → (if b then some old else lookup hosts name) ≡ some fh
    → (lookup hosts name ≡ some fh → suc (steps_left changed) ≡ steps_left hosts)
    → suc (steps_left (if b then (n, fh') ∷ hosts else (n, old) ∷ changed))
      ≡ steps_left ((n, old) ∷ hosts)
put_step true n name old fh fh' hosts changed s x k =
    let e : old ≡ fh = ground arith in rw e (omega (arith, step_fewer fh fh' s))
put_step false n name old fh fh' hosts changed s x k = omega (arith, k x)

pub steps_left-put :
    (hosts : Hosts) (name : Name) (fh fh' : FailureHost)
    → lookup hosts name ≡ some fh
    → HostStep fh fh'
    → suc (steps_left (put hosts name fh')) ≡ steps_left hosts
unfolding lookup put
steps_left-put [] name fh fh' x s = ground arith
steps_left-put ((n, old) ∷ hosts) name fh fh' x s =
    put_step (same n name) n name old fh fh' hosts (put hosts name fh') s x
      (λ y. steps_left-put hosts name fh fh' y s)

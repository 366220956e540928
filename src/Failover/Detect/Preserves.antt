-- ===== src/Failover/Detect/Preserves.antt =====
-- pkg/controller/component/{graphd,metad,storaged}_{cluster,failover}.go: runs that keep what holds of
-- every failure host.
use nebula_operator.Common.{
  Bool, true, false, Option, none, some, List, [], ◌∷◌, ◌≡◌, sym, ap, ◌∙◌, if◌then◌else◌, arith,
  same, Bool-cases, inl, inr,
}
use mathlib.Core.Path.{subst}
use nebula_operator.Common.Effect.{M, Outcome, ok, err, panic, ◌>>=◌, then_run, return}
use nebula_operator.Scheduler.PodName.{Name}
use nebula_operator.Failover.Hosts.{
  FailureHost, Hosts, ServiceHost, lookup, put, connect, list_hosts, FailoverServer, Failures,
  entries, request, change, put_host,
}
use nebula_operator.Failover.Hosts.Laws.{lookup-put, lookup-delete}
use nebula_operator.Failover.Manager.{Component, delete_key, recovery, failover}
use nebula_operator.Failover.Manager.Kept.{Kept, request-Kept}
use nebula_operator.Failover.Manager.Moves.{HostStep, Moves, stays, moves, failover-Moves}
use nebula_operator.Failover.Detect.{with_hosts, closing}

-- Of every failure host.
abbrev pub AllHosts : (FailureHost → Type 0) → Option Hosts → Type 0
AllHosts P h = (name : Name) (fh : FailureHost) → lookup (entries h) name ≡ some fh → P fh

module _ (P : FailureHost → Type 0) where
  -- Whatever the outcome of the run, `P` holds of every host after it as before it.
  unfoldable pub Preserves : {A : Type 0} → M Failures A → Type 0
  Preserves m = (w : Failures) → AllHosts P w.failure_hosts → AllHosts P (m w).1.failure_hosts

  pub bind-Preserves :
      {A B : Type 0} (m : M Failures A) (f : A → M Failures B)
      → Preserves m
      → ((a : A) → Preserves (f a))
      → Preserves (m >>= f)
  unfolding Preserves
  bind-Preserves {A} {B} m f pm pf w i = go (m w) (pm w i)
    where
      go :
          (r : Outcome A × Failures)
          → AllHosts P r.1.failure_hosts
          → AllHosts P (then_run r f).1.failure_hosts
      go (ok a, u) j = pf a u j
      go (err x, u) j = j
      go (panic, u) j = j

  pub Kept-Preserves : {A : Type 0} (m : M Failures A) → Kept m → Preserves m
  unfolding Preserves Kept
  Kept-Preserves m k w i name fh x =
      i name fh (ap (λ (o : Option Hosts). lookup (entries o) name) (sym (k w)) ∙ x)

  pub return-Preserves : Preserves (return tt)
  unfolding Preserves
  return-Preserves w i = i

  pub if-Preserves :
      {A : Type 0} (b : Bool) (m k : M Failures A)
      → Preserves m
      → Preserves k
      → Preserves (if b then m else k)
  if-Preserves true m k pm pk = pm
  if-Preserves false m k pm pk = pk

  pub put-AllHosts :
      (hosts : Hosts) (name : Name) (fh : FailureHost)
      → P fh
      → AllHosts P (some hosts)
      → AllHosts P (some (put hosts name fh))
  put-AllHosts hosts name fh p i n f x = elim (Bool-cases (same name n)) [
    | inl e ↦ let y : fh ≡ f = ground (arith, lookup-put hosts name n fh) in subst P y p
    | inr e ↦ i n f (ground (arith, lookup-put hosts name n fh))
  ]

  pub put_host-Preserves : (name : Name) (fh : FailureHost) → P fh → Preserves (put_host name fh)
  unfolding Preserves
  put_host-Preserves name fh p w = go (w.failure_hosts)
    where
      go :
          (o : Option Hosts)
          → AllHosts P o
          → AllHosts P (put_host name fh (record w { failure_hosts = o })).1.failure_hosts
      go none i = i
      go (some hosts) i = put-AllHosts hosts name fh p i

  pub delete-AllHosts :
      (o : Option Hosts) (name : Name) → AllHosts P o → AllHosts P (delete_key name o)
  delete-AllHosts none name i n f x = i n f x
  delete-AllHosts (some hosts) name i n f x = elim (Bool-cases (same name n)) [
    | inl e ↦ absurd (ground (arith, lookup-delete hosts name n))
    | inr e ↦ i n f (ground (arith, lookup-delete hosts name n))
  ]

  pub delete-Preserves : (name : Name) → Preserves (change (delete_key name))
  unfolding Preserves
  delete-Preserves name w = delete-AllHosts w.failure_hosts name

  pub recovery-Preserves : (names : List Name) → Preserves (recovery names)
  unfolding recovery Preserves
  recovery-Preserves [] w i = i
  recovery-Preserves (name ∷ names) w i =
      recovery-Preserves names (change (delete_key name) w).1 (delete-Preserves name w i)

  -- A step of the failover keeps what a restart and a rebuild keep.
  pub failover-Preserves :
      (server : FailoverServer) (c : Component)
      → ((fh fh' : FailureHost) → HostStep fh fh' → P fh → P fh')
      → Preserves (failover server c)
  unfolding Preserves
  failover-Preserves server c k w i = go (failover server c w) (failover-Moves server c w)
    where
      go :
          (r : Outcome (Unit {0}) × Failures)
          → Moves w.failure_hosts r
          → AllHosts P r.1.failure_hosts
      go _ (stays o u e) = subst (AllHosts P) (sym e) i
      go _ (moves hosts n fh fh' u a b s d) =
          let j : AllHosts P (some hosts) = subst (AllHosts P) a i in
          subst (AllHosts P) (sym d) (put-AllHosts hosts n fh' (k fh fh' s (j n fh b)) j)

  pub closing-Preserves :
      {A : Type 0} (server : FailoverServer) (m : M Failures A)
      → Preserves m
      → Preserves (closing server m)
  unfolding Preserves
  closing-Preserves server m k w i = k w i

  pub with_hosts-Preserves :
      {A : Type 0} (server : FailoverServer) (body : List ServiceHost → M Failures A)
      → ((hosts : List ServiceHost) → Preserves (body hosts))
      → Preserves (with_hosts server body)
  unfolding with_hosts
  with_hosts-Preserves server body k =
      bind-Preserves (request server.connected connect) _
        (Kept-Preserves _ (request-Kept server.connected connect))
        (λ _. closing-Preserves server (request server.hosts_of list_hosts >>= body) (
          bind-Preserves (request server.hosts_of list_hosts) body
            (Kept-Preserves _ (request-Kept server.hosts_of list_hosts)) k))

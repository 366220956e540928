-- ===== src/Failover/Detect/Recover.antt =====
-- pkg/controller/component/{graphd,metad,storaged}_cluster.go, {graphd,metad,storaged}_failover.go: which
-- failure hosts are recovered, and what the recovery forgets.
use nebula_operator.Common.{
  ◌||◌, true, false, Option, none, some, List, [], ◌∷◌, ◌≡◌, refl, ◌∙◌, if◌then◌else◌, arith, same,
  Bool-cases, inl, inr,
}
use nebula_operator.Common.Effect.{M, ok, ◌>>=◌}
use nebula_operator.Scheduler.PodName.{Name}
use nebula_operator.Failover.Hosts.{
  FailureHost, Hosts, Table, ServiceHost, lookup, connect, list_hosts, FailoverServer, Failures,
  entries, request, change, find_pod, visit, range_hosts,
}
use nebula_operator.Failover.Hosts.Laws.{lookup-delete}
use nebula_operator.Failover.Manager.{delete_key, recovery}
use nebula_operator.Failover.Manager.Kept.{
  Kept, bind-Kept, visit-Kept, find_pod-Kept, constant-Kept, request-Kept, range_hosts-Kept,
}
use nebula_operator.Failover.Manager.Done.{contains_name}
use nebula_operator.Failover.Detect.{
  FailoverSpec, with_pod, healthy_one, healthy_pods, online_hosts, recoverable, recoverable_hosts,
  recover_online, should_recover_hosts, should_recover, with_hosts, closing,
}

-- `Recovery` forgets the hosts that it is given, and no other.
pub lookup-recovery :
    (names : List Name) (w : Failures) (name : Name)
    → lookup (entries (recovery names w).1.failure_hosts) name
      ≡ (if contains_name names name then none else lookup (entries w.failure_hosts) name)
unfolding recovery lookup
lookup-recovery [] w name = refl
lookup-recovery (n ∷ names) w name =
    lookup-recovery names (change (delete_key n) w).1 name ∙ forget (w.failure_hosts)
  where
    forget :
        (o : Option Hosts)
        → (if contains_name names name then none else lookup (entries (delete_key n o)) name)
          ≡ (if same n name || contains_name names name then none else lookup (entries o) name)
    forget none = elim (Bool-cases (same n name)) [ inl e ↦ ground arith | inr e ↦ ground arith ]
    forget (some hosts) = elim (Bool-cases (same n name)) [
      | inl e ↦ ground (arith, lookup-delete hosts n name)
      | inr e ↦ ground (arith, lookup-delete hosts n name)
    ]

closing-Kept :
    {A : Type 0} (server : FailoverServer) (m : M Failures A) → Kept m → Kept (closing server m)
unfolding Kept
closing-Kept server m k w = k w

module _ (server : FailoverServer) where
  pub healthy_one-Kept :
      (healthy : Table Name) (spec : FailoverSpec) (name : Name) (fh : FailureHost)
      → Kept (healthy_one server spec healthy name fh)
  healthy_one-Kept healthy spec name fh =
      bind-Kept (find_pod server name) _ (find_pod-Kept server name)
        (λ pod. constant-Kept (ok (with_pod server spec name fh healthy pod)))

  healthy_pods-Kept :
      (spec : FailoverSpec) (healthy : Table Name) (names : List Name)
      → Kept (healthy_pods server spec healthy names)
  unfolding healthy_pods
  healthy_pods-Kept spec healthy [] = constant-Kept (ok healthy)
  healthy_pods-Kept spec healthy (name ∷ names) =
      bind-Kept (visit healthy (healthy_one server spec healthy) name) _
        (visit-Kept healthy (healthy_one server spec healthy) (healthy_one-Kept healthy spec) name)
        (λ more. healthy_pods-Kept spec more names)

  with_hosts-Kept :
      {A : Type 0} (body : List ServiceHost → M Failures A)
      → ((hosts : List ServiceHost) → Kept (body hosts))
      → Kept (with_hosts server body)
  unfolding with_hosts
  with_hosts-Kept body k =
      bind-Kept (request server.connected connect) _ (request-Kept server.connected connect) (λ _.
        closing-Kept server (request server.hosts_of list_hosts >>= body) (
          bind-Kept (request server.hosts_of list_hosts) body
            (request-Kept server.hosts_of list_hosts) k))

  recover_online-Kept :
      (spec : FailoverSpec) (healthy : Table Name) → Kept (recover_online server spec healthy)
  recover_online-Kept spec [] = constant-Kept (ok (false, []))
  recover_online-Kept spec (p ∷ healthy) =
      with_hosts-Kept (recoverable_hosts server spec (p ∷ healthy)) (λ hosts.
        constant-Kept (ok (recoverable server spec (online_hosts server spec (p ∷ healthy) hosts))))

  should_recover_hosts-Kept :
      (spec : FailoverSpec) (o : Option Hosts) → Kept (should_recover_hosts server spec o)
  unfolding should_recover_hosts
  should_recover_hosts-Kept spec none = constant-Kept (ok (true, []))
  should_recover_hosts-Kept spec (some hosts) =
      bind-Kept (range_hosts server) _ (range_hosts-Kept server) (λ names.
        bind-Kept (healthy_pods server spec [] names) (recover_online server spec)
          (healthy_pods-Kept spec [] names) (recover_online-Kept spec))

  pub should_recover-Kept : (spec : FailoverSpec) → Kept (should_recover server spec)
  unfolding should_recover Kept
  should_recover-Kept spec w = should_recover_hosts-Kept spec w.failure_hosts w

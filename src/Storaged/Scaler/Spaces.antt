-- ===== src/Storaged/Scaler/Spaces.antt =====
-- pkg/controller/component/storaged_scaler.go: the spaces that a scaling has balanced or removed, and the
-- hosts that it drops.
use nebula_operator.Common.{
  ℕ, ◌≡◌, refl, sym, ap, ◌∙◌, ◌⊎◌, inl, inr, Bool, true, false, Option, List, All, All-map,
  if◌then◌else◌,
}
use mathlib.Core.Path.{subst}
use nebula_operator.Common.Effect.{Outcome, ok, return}
use nebula_operator.Nebula.World.{
  World, StoragedStatus, BalanceJob, list_spaces, modify, listed, append_to, make_if_nil,
}
use nebula_operator.Nebula.Meta.{MetaServer}
use nebula_operator.Nebula.Jobs.Errors.{Answered}
use nebula_operator.Storaged.Api.{ApiServer}
use nebula_operator.Storaged.Visit.{for_unlisted_tied, listed-append_to_inv, listed-make_if_nil}
use nebula_operator.Storaged.Balancer.{balance_space, remove_host}
use nebula_operator.Storaged.Balancer.Recorded.{
  FinishedJob, Finished, balance_space_ok, remove_host_ok,
}
use nebula_operator.Storaged.Scaler.{
  has_some, balance_spaces, make_balanced, make_removed, remove_spaces,
}

module _ (api : ApiServer) (meta : MetaServer) where
  -- Each space is in the list, or the balance job is for it and has finished.
  abbrev pub AllDone : Option (List ℕ) → Option BalanceJob → List ℕ → Type 0
  AllDone done last_balance_job spaces =
      All (λ s. (listed done s ≡ true) ⊎ FinishedJob api meta last_balance_job s) spaces

  -- The meta service listed the spaces, and each was in the list of balanced ones, or the balance job is for
  -- it and has finished.
  abbrev pub AllBalanced : Option (List ℕ) → Option BalanceJob → Type 0
  AllBalanced balanced_spaces last_balance_job =
      (spaces : List ℕ) × Answered meta meta.spaces list_spaces spaces
      × AllDone balanced_spaces last_balance_job spaces

  -- A run that starts with the job and adds a space to the list.
  abbrev pub Adds :
      (StoragedStatus → Option (List ℕ)) → Option BalanceJob → ℕ → World → World → Type 0
  Adds field job s w v =
      FinishedJob api meta job s
      × (v.cluster.storaged.last_balance_job ≡ job)
      × ((a : ℕ)
          → listed (field v.cluster.storaged) a ≡ true
          → (listed (field w.cluster.storaged) a ≡ true) ⊎ (a ≡ s))

  added :
      (field : StoragedStatus → Option (List ℕ)) (job : Option BalanceJob) (s : ℕ) (w v : World)
      → w.cluster.storaged.last_balance_job ≡ job
      → Finished api meta w s
      → v.cluster.storaged.last_balance_job ≡ w.cluster.storaged.last_balance_job
      → field v.cluster.storaged ≡ append_to (field w.cluster.storaged) s
      → Adds field job s w v
  added field job s w v i finished same e = (
    subst (λ j. FinishedJob api meta j s) i finished,
    same ∙ i,
    λ a l.
        listed-append_to_inv (field w.cluster.storaged) s a
          (ap (λ (o : Option (List ℕ)). listed o a) (sym e) ∙ l),
  )

  pub balance_space-Adds :
      (job : Option BalanceJob) (s : ℕ) (w v : World)
      → w.cluster.storaged.last_balance_job ≡ job
      → balance_space api meta s w ≡ (ok tt, v)
      → Adds (λ st. st.balanced_spaces) job s w v
  balance_space-Adds job s w v i h =
      let (finished, e) = balance_space_ok api meta s w v h in
      added (λ st. st.balanced_spaces) job s w v i finished
        (ap (λ (st : StoragedStatus). st.last_balance_job) e)
        (ap (λ (st : StoragedStatus). st.balanced_spaces) e)

  remove_host-Adds :
      (hosts : List ℕ) (job : Option BalanceJob) (s : ℕ) (w v : World)
      → w.cluster.storaged.last_balance_job ≡ job
      → remove_host api meta s hosts w ≡ (ok tt, v)
      → Adds (λ st. st.removed_spaces) job s w v
  remove_host-Adds hosts job s w v i h =
      let (finished, e) = remove_host_ok api meta s hosts w v h in
      added (λ st. st.removed_spaces) job s w v i finished
        (ap (λ (st : StoragedStatus). st.last_balance_job) e)
        (ap (λ (st : StoragedStatus). st.removed_spaces) e)

  pub balance_spaces_ok :
      (spaces : List ℕ) (w v : World)
      → balance_spaces api meta spaces w ≡ (ok tt, v)
      → AllDone w.cluster.storaged.balanced_spaces w.cluster.storaged.last_balance_job spaces
  unfolding balance_spaces
  balance_spaces_ok spaces w v h =
      let job = w.cluster.storaged.last_balance_job in
      for_unlisted_tied (λ st. st.balanced_spaces) (balance_space api meta)
        (λ u. u.cluster.storaged.last_balance_job ≡ job) (FinishedJob api meta job)
        (balance_space-Adds job) spaces w v refl h

  pub remove_spaces_ok :
      (hosts spaces : List ℕ) (w v : World)
      → remove_spaces api meta hosts spaces w ≡ (ok tt, v)
      → AllDone w.cluster.storaged.removed_spaces w.cluster.storaged.last_balance_job spaces
  unfolding remove_spaces
  remove_spaces_ok hosts spaces w v h =
      let job = w.cluster.storaged.last_balance_job in
      for_unlisted_tied (λ st. st.removed_spaces) (λ s. remove_host api meta s hosts)
        (λ u. u.cluster.storaged.last_balance_job ≡ job) (FinishedJob api meta job)
        (remove_host-Adds hosts job) spaces w v refl h

  -- What is done from a list that was only made, is done from the list before.
  pub made_done :
      (before after : Option (List ℕ)) (job job' : Option BalanceJob) (spaces : List ℕ)
      → ((s : ℕ) → listed after s ≡ true → listed before s ≡ true)
      → job' ≡ job
      → AllDone after job' spaces
      → AllDone before job spaces
  made_done before after job job' spaces kept e all =
      All-map _ _ spaces
        (λ s x. elim x [
          | inl l ↦ inl (kept s l)
          | inr f ↦ inr (subst (λ j. FinishedJob api meta j s) e f)
        ])
        all

  -- A run that changes no more of the records than to make their lists.
  abbrev pub Makes : World → World → Type 0
  Makes w v =
      ((s : ℕ)
        → listed v.cluster.storaged.balanced_spaces s ≡ true
        → listed w.cluster.storaged.balanced_spaces s ≡ true)
      × ((s : ℕ)
          → listed v.cluster.storaged.removed_spaces s ≡ true
          → listed w.cluster.storaged.removed_spaces s ≡ true)
      × (v.cluster.storaged.last_balance_job ≡ w.cluster.storaged.last_balance_job)

  Makes-self : (w : World) → Makes w w
  Makes-self w = (λ s l. l, λ s l. l, refl)

  pub make_balanced_ok :
      (spaces : List ℕ) (w v : World) → make_balanced api meta spaces w ≡ (ok tt, v) → Makes w v
  unfolding make_balanced
  make_balanced_ok spaces w v = go (has_some spaces)
    where
      go :
          (b : Bool)
          → (if b
                then modify (λ st. record st { balanced_spaces = make_if_nil st.balanced_spaces })
                else return tt)
              w
            ≡ (ok tt, v)
          → Makes w v
      go true h =
          subst (Makes w) (ap (λ (p : Outcome (Unit {0}) × World). p.1) h)
            (listed-make_if_nil w.cluster.storaged.balanced_spaces, λ s l. l, refl)
      go false h = subst (Makes w) (ap (λ (p : Outcome (Unit {0}) × World). p.1) h) (Makes-self w)

  pub make_removed_ok :
      (spaces : List ℕ) (w v : World) → make_removed api meta spaces w ≡ (ok tt, v) → Makes w v
  unfolding make_removed
  make_removed_ok spaces w v = go (has_some spaces)
    where
      go :
          (b : Bool)
          → (if b
                then modify (λ st. record st {
                  balanced_spaces = make_if_nil st.balanced_spaces;
                  removed_spaces = make_if_nil st.removed_spaces;
                })
                else return tt)
              w
            ≡ (ok tt, v)
          → Makes w v
      go true h = subst (Makes w) (ap (λ (p : Outcome (Unit {0}) × World). p.1) h) (
        listed-make_if_nil w.cluster.storaged.balanced_spaces,
        listed-make_if_nil w.cluster.storaged.removed_spaces,
        refl,
      )
      go false h = subst (Makes w) (ap (λ (p : Outcome (Unit {0}) × World). p.1) h) (Makes-self w)

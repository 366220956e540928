-- ===== src/Storaged/Visit.antt =====
-- pkg/controller/component: the loop `for _, space := range spaces { if contains(list, id) {
-- continue }; … }` that the scaler, the failover and the updater share, where the body adds the
-- space to the list.
use mathlib.Core.Path.{subst}
use nebula_operator.Common.{
  ◌⊎◌, inl, inr, All-map, contains-append_inv, ℕ, ◌≡◌, refl, ap, sym, ◌∙◌, Bool, true, false,
  Option, none, some, List, [], ◌∷◌, arith, All, contains-append_left, contains-append_self,
  if◌then◌else◌,
}
use nebula_operator.Common.Effect.{M, Outcome, ok, ◌>>=◌, ◌>>◌, return, >>=-eq-ok}
use nebula_operator.Nebula.World.{
  World, StoragedStatus, get_cluster, listed, append_to, make_if_nil,
}

unfoldable pub for_unlisted :
    (StoragedStatus → Option (List ℕ)) → (ℕ → M World (Unit {0})) → List ℕ → M World (Unit {0})
for_unlisted field body [] = return tt
for_unlisted field body (s ∷ spaces) = do
  c ← get_cluster
  if listed (field c.storaged) s then return tt else body s
  for_unlisted field body spaces

pub listed-append_to_self : (o : Option (List ℕ)) (s : ℕ) → listed (append_to o s) s ≡ true
listed-append_to_self none s = contains-append_self [] s
listed-append_to_self (some xs) s = contains-append_self xs s

pub listed-append_to_left :
    (o : Option (List ℕ)) (s a : ℕ) → listed o a ≡ true → listed (append_to o s) a ≡ true
listed-append_to_left none s a h = absurd (ground arith)
listed-append_to_left (some xs) s a h = contains-append_left xs (s ∷ []) a h

module _ (field : StoragedStatus → Option (List ℕ)) where
  -- What was listed before is listed after.
  abbrev pub Grows : World → World → Type 0
  Grows w v =
      (s : ℕ)
      → listed (field w.cluster.storaged) s ≡ true
      → listed (field v.cluster.storaged) s ≡ true

  -- A body that returns has listed its space and has forgotten none.
  abbrev pub Lists : (ℕ → M World (Unit {0})) → Type 0
  Lists body =
      (s : ℕ) (w v : World)
      → body s w ≡ (ok tt, v)
      → (listed (field v.cluster.storaged) s ≡ true) × Grows w v

  visit_one :
      (body : ℕ → M World (Unit {0}))
      → Lists body
      → (s : ℕ) (b : Bool) (w v : World) → listed (field w.cluster.storaged) s ≡ b
      → (if b then return tt else body s) w ≡ (ok tt, v)
      → (listed (field v.cluster.storaged) s ≡ true) × Grows w v
  visit_one body l s true w v e h =
      let same_world = ap (λ (p : Outcome (Unit {0}) × World). p.1) h in
      (
        ap (λ (u : World). listed (field u.cluster.storaged) s) (sym same_world) ∙ e,
        λ a k. ap (λ (u : World). listed (field u.cluster.storaged) a) (sym same_world) ∙ k,
      )
  visit_one body l s false w v e h = l s w v h

  -- A loop that returns has listed every space.
  pub for_unlisted_ok :
      (body : ℕ → M World (Unit {0}))
      → Lists body
      → (spaces : List ℕ) (w v : World) → for_unlisted field body spaces w ≡ (ok tt, v)
      → All (λ s. listed (field v.cluster.storaged) s ≡ true) spaces × Grows w v
  unfolding for_unlisted
  for_unlisted_ok body l [] w v h = (
    tt,
    λ a k.
        ap (λ (p : Outcome (Unit {0}) × World). listed (field p.1.cluster.storaged) a) (sym h) ∙ k,
  )
  for_unlisted_ok body l (s ∷ spaces) w v h =
      let (_, u, e, k) =
        >>=-eq-ok (if listed (field w.cluster.storaged) s then return tt else body s) _ w v tt h in
      let (here, grown) = visit_one body l s (listed (field w.cluster.storaged) s) w u refl e in
      let (rest, grown') = for_unlisted_ok body l spaces u v k in
      ((grown' s here, rest), λ a f. grown' a (grown a f))

-- What the body keeps, the loop keeps.
pub for_unlisted_keeps :
    (field : StoragedStatus → Option (List ℕ)) (body : ℕ → M World (Unit {0})) (I : World → Type 0)
    → ((s : ℕ) (w v : World) → I w → body s w ≡ (ok tt, v) → I v)
    → (spaces : List ℕ) (w v : World) → I w
    → for_unlisted field body spaces w ≡ (ok tt, v)
    → I v
unfolding for_unlisted
for_unlisted_keeps field body I k [] w v i h =
    subst I (ap (λ (p : Outcome (Unit {0}) × World). p.1) h) i
for_unlisted_keeps field body I k (s ∷ spaces) w v i h =
    let (_, u, e, rest) =
      >>=-eq-ok (if listed (field w.cluster.storaged) s then return tt else body s) _ w v tt h in
    for_unlisted_keeps field body I k spaces u v (one (listed (field w.cluster.storaged) s) u e)
      rest
  where
    one : (b : Bool) (u : World) → (if b then return tt else body s) w ≡ (ok tt, u) → I u
    one true u e = subst I (ap (λ (p : Outcome (Unit {0}) × World). p.1) e) i
    one false u e = k s w u i e

pub listed-append_to_inv :
    (o : Option (List ℕ)) (s a : ℕ)
    → listed (append_to o s) a ≡ true
    → (listed o a ≡ true) ⊎ (a ≡ s)
listed-append_to_inv none s a h = contains-append_inv [] s a h
listed-append_to_inv (some xs) s a h = contains-append_inv xs s a h

-- A loop that returns has visited every space that was not listed at its start.
pub for_unlisted_tied :
    (field : StoragedStatus → Option (List ℕ)) (body : ℕ → M World (Unit {0})) (I : World → Type 0)
    (Q : ℕ → Type 0)
    → ((s : ℕ) (w v : World)
        → I w
        → body s w ≡ (ok tt, v)
        → Q s
          × I v
          × ((a : ℕ)
              → listed (field v.cluster.storaged) a ≡ true
              → (listed (field w.cluster.storaged) a ≡ true) ⊎ (a ≡ s)))
    → (spaces : List ℕ) (w v : World) → I w
    → for_unlisted field body spaces w ≡ (ok tt, v)
    → All (λ s. (listed (field w.cluster.storaged) s ≡ true) ⊎ Q s) spaces
unfolding for_unlisted
for_unlisted_tied field body I Q step [] w v i h = tt
for_unlisted_tied field body I Q step (s ∷ spaces) w v i h =
    let (_, u, e, k) =
      >>=-eq-ok (if listed (field w.cluster.storaged) s then return tt else body s) _ w v tt h in
    let (here, j, new) = one (listed (field w.cluster.storaged) s) refl u e in
    (here, All-map _ _ spaces new (for_unlisted_tied field body I Q step spaces u v j k))
  where
    one :
        (b : Bool)
        → listed (field w.cluster.storaged) s ≡ b
        → (u : World) → (if b then return tt else body s) w ≡ (ok tt, u)
        → ((listed (field w.cluster.storaged) s ≡ true) ⊎ Q s)
          × I u
          × ((a : ℕ)
              → (listed (field u.cluster.storaged) a ≡ true) ⊎ Q a
              → (listed (field w.cluster.storaged) a ≡ true) ⊎ Q a)
    one true l u e =
        let same_world : w ≡ u = ap (λ (p : Outcome (Unit {0}) × World). p.1) e in
        (
          inl l,
          subst I same_world i,
          λ a.
              subst
                (λ (x : World).
                  (listed (field x.cluster.storaged) a ≡ true) ⊎ Q a
                  → (listed (field w.cluster.storaged) a ≡ true) ⊎ Q a)
                same_world (λ x. x),
        )
    one false l u e =
        let (q, j, new) = step s w u i e in
        (
          inr q,
          j,
          λ a x. elim x [
            | inl y ↦ elim (new a y) [ inl z ↦ inl z | inr z ↦ inr (subst Q (sym z) q) ]
            | inr y ↦ inr y
          ],
        )

pub listed-make_if_nil :
    (o : Option (List ℕ)) (s : ℕ) → listed (make_if_nil o) s ≡ true → listed o s ≡ true
listed-make_if_nil none s h = h
listed-make_if_nil (some xs) s h = h

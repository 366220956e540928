-- ===== src/Condition/Laws.antt =====
-- pkg/util/condition/cluster_condition.go: what `SetNebulaClusterCondition` leaves.
use nebula_operator.Common.{
  ℕ, ◌≡◌, ◌≢◌, refl, sym, ap, ◌∙◌, inl, inr, Bool, true, false, ◌&&◌, Option, none, some, List, [],
  ◌∷◌, ◌++◌, arith, ◌==◌, ==_iff, Bool-cases, if◌then◌else◌,
}
use mathlib.Core.Path.{subst}
use nebula_operator.Condition.Status.{
  ConditionStatus, condition_true, condition_false, condition_unknown, is_status, Condition,
  get_condition, filter_out_condition, with_transition, replace_condition, set_condition,
}

pub is_status_eq : (a b : ConditionStatus) → is_status a b ≡ true → a ≡ b
is_status_eq condition_true condition_true h = refl
is_status_eq condition_true condition_false h = absurd (ground arith)
is_status_eq condition_true condition_unknown h = absurd (ground arith)
is_status_eq condition_false condition_true h = absurd (ground arith)
is_status_eq condition_false condition_false h = refl
is_status_eq condition_false condition_unknown h = absurd (ground arith)
is_status_eq condition_unknown condition_true h = absurd (ground arith)
is_status_eq condition_unknown condition_false h = absurd (ground arith)
is_status_eq condition_unknown condition_unknown h = refl

is_status_refl : (a : ConditionStatus) → is_status a a ≡ true
is_status_refl condition_true = refl
is_status_refl condition_false = refl
is_status_refl condition_unknown = refl

-- No condition of the type.
abbrev pub Lacks : List Condition → ℕ → Type 0
Lacks [] k = Unit
Lacks (c ∷ cs) k = ((c.kind == k) ≡ false) × Lacks cs k

-- At most one condition of each type.
abbrev pub OnePerType : List Condition → Type 0
OnePerType [] = Unit
OnePerType (c ∷ cs) = Lacks cs c.kind × OnePerType cs

by_test :
    {A : Type 0} (P : A → Type 0) (b : Bool) (x y : A)
    → (b ≡ true → P x)
    → (b ≡ false → P y)
    → P (if b then x else y)
by_test P true x y f g = f refl
by_test P false x y f g = g refl

filter_out_condition-Lacks : (cs : List Condition) (k : ℕ) → Lacks (filter_out_condition cs k) k
unfolding filter_out_condition
filter_out_condition-Lacks [] k = tt
filter_out_condition-Lacks (c ∷ cs) k =
    let rest = filter_out_condition-Lacks cs k in
    by_test (λ l. Lacks l k) (c.kind == k) _ (c ∷ _) (λ _. rest) (λ e. (e, rest))

Lacks-filter_out_condition :
    (cs : List Condition) (k a : ℕ) → Lacks cs a → Lacks (filter_out_condition cs k) a
unfolding filter_out_condition
Lacks-filter_out_condition [] k a h = tt
Lacks-filter_out_condition (c ∷ cs) k a h =
    let rest = Lacks-filter_out_condition cs k a h.1 in
    by_test (λ l. Lacks l a) (c.kind == k) _ (c ∷ _) (λ _. rest) (λ _. (h.0, rest))

filter_out_condition-OnePerType :
    (cs : List Condition) (k : ℕ) → OnePerType cs → OnePerType (filter_out_condition cs k)
unfolding filter_out_condition
filter_out_condition-OnePerType [] k h = tt
filter_out_condition-OnePerType (c ∷ cs) k h =
    let rest = filter_out_condition-OnePerType cs k h.1 in
    by_test OnePerType (c.kind == k) _ (c ∷ _) (λ _. rest)
      (λ _. (Lacks-filter_out_condition cs k c.kind h.0, rest))

Lacks-append :
    (cs : List Condition) (d : Condition) (k : ℕ)
    → Lacks cs k
    → ((d.kind == k) ≡ false)
    → Lacks (cs ++ d ∷ []) k
Lacks-append [] d k h e = (e, tt)
Lacks-append (c ∷ cs) d k h e = (h.0, Lacks-append cs d k h.1 e)

differ : (a b : ℕ) → ((a == b) ≡ false) → ((b == a) ≡ false)
differ a b h = ground arith

OnePerType-append :
    (cs : List Condition) (d : Condition)
    → OnePerType cs
    → Lacks cs d.kind
    → OnePerType (cs ++ d ∷ [])
OnePerType-append [] d h l = (tt, tt)
OnePerType-append (c ∷ cs) d h l =
    (Lacks-append cs d c.kind h.0 (differ c.kind d.kind l.0), OnePerType-append cs d h.1 l.1)

get-append_self :
    (cs : List Condition) (d : Condition) (k : ℕ)
    → d.kind ≡ k
    → Lacks cs k
    → get_condition (cs ++ d ∷ []) k ≡ some d
unfolding get_condition
get-append_self [] d k e l = rw ((==_iff d.kind k).1 e)
get-append_self (c ∷ cs) d k e l = rw l.0 (get-append_self cs d k e l.1)

get-append_other :
    (cs : List Condition) (d : Condition) (k : ℕ)
    → ((d.kind == k) ≡ false)
    → get_condition (cs ++ d ∷ []) k ≡ get_condition cs k
unfolding get_condition
get-append_other [] d k e = rw e
get-append_other (c ∷ cs) d k e =
    ap (λ (o : Option Condition). if c.kind == k then some c else o) (get-append_other cs d k e)

pub skipped :
    (c : Condition) (o : Option Condition) (b : Bool) → b ≡ false → (if b then some c else o) ≡ o
skipped c o b g = rw g

get-filter_out_condition :
    (cs : List Condition) (k a : ℕ)
    → ((k == a) ≡ false)
    → get_condition (filter_out_condition cs k) a ≡ get_condition cs a
unfolding get_condition filter_out_condition
get-filter_out_condition [] k a e = refl
get-filter_out_condition (c ∷ cs) k a e =
    let rest = get-filter_out_condition cs k a e in
    by_test (λ l. get_condition l a ≡ get_condition (c ∷ cs) a) (c.kind == k) _
      (c ∷ filter_out_condition cs k)
      (λ f. rest ∙ sym (skipped c (get_condition cs a) (c.kind == a) (ground arith)))
      (λ f. ap (λ (o : Option Condition). if c.kind == a then some c else o) rest)

-- `set_condition` keeps at most one condition of each type.
pub set_condition-OnePerType :
    (conditions : List Condition) (condition : Condition)
    → OnePerType conditions
    → OnePerType (set_condition conditions condition)
unfolding set_condition replace_condition
set_condition-OnePerType conditions condition h =
    by_current (get_condition conditions condition.kind)
  where
    fresh :
        (d : Condition)
        → d.kind ≡ condition.kind
        → OnePerType (filter_out_condition conditions condition.kind ++ d ∷ [])
    fresh d e =
        OnePerType-append _ d (filter_out_condition-OnePerType conditions condition.kind h) (
          subst (Lacks (filter_out_condition conditions condition.kind)) (sym e)
            (filter_out_condition-Lacks conditions condition.kind))

    by_current : (o : Option Condition) → OnePerType (replace_condition conditions condition o)
    by_current none = fresh condition refl
    by_current (some current) =
        by_test OnePerType
          (is_status current.status condition.status && current.reason == condition.reason)
          conditions _ (λ _. h)
          (λ _.
            fresh
              (if is_status current.status condition.status
                then with_transition condition current.last_transition_time
                else condition)
              (by_test (λ d. d.kind ≡ condition.kind) (is_status current.status condition.status) _
                condition (λ _. refl) (λ _. refl)))

-- What a condition set at a type says: the new status and reason, and the old time of transition
-- where the old status is the new one.
abbrev pub SetTo : Option Condition → Condition → Condition → Type 0
SetTo none condition d = d ≡ condition
SetTo (some current) condition d =
    (d.status ≡ condition.status)
    × (d.reason ≡ condition.reason)
    × (current.status ≡ condition.status → d.last_transition_time ≡ current.last_transition_time)

get_condition-kind :
    (cs : List Condition) (k : ℕ) (c : Condition) → get_condition cs k ≡ some c → c.kind ≡ k
unfolding get_condition
get_condition-kind [] k c h = absurd (ground arith)
get_condition-kind (d ∷ cs) k c h = elim (Bool-cases (d.kind == k)) [
  | inl e ↦ ap kind_of (sym (rw e at h)) ∙ (==_iff d.kind k).0 e
  | inr e ↦ get_condition-kind cs k c (rw e at h)
]
  where
    kind_of : Option Condition → ℕ
    kind_of none = 0
    kind_of (some d) = d.kind

-- After `set_condition`, the condition of its type is one with its status and reason, whose time of
-- transition is the old one if the status has not changed; every other type has the condition that it had.
pub get_condition-set_condition :
    (conditions : List Condition) (condition : Condition)
    → ((d : Condition) × (get_condition (set_condition conditions condition) condition.kind
          ≡ some d)
        × SetTo (get_condition conditions condition.kind) condition d)
      × ((k : ℕ)
          → k ≢ condition.kind
          → get_condition (set_condition conditions condition) k ≡ get_condition conditions k)
unfolding set_condition replace_condition
get_condition-set_condition conditions condition =
    by_current (get_condition conditions condition.kind) refl
  where
    Result : Option Condition → List Condition → Type 0
    Result o l =
        ((d : Condition) × (get_condition l condition.kind ≡ some d) × SetTo o condition d)
        × ((k : ℕ) → k ≢ condition.kind → get_condition l k ≡ get_condition conditions k)

    fresh :
        (o : Option Condition) (d : Condition)
        → d.kind ≡ condition.kind
        → SetTo o condition d
        → Result o (filter_out_condition conditions condition.kind ++ d ∷ [])
    fresh o d e t = (
      (
        d,
        get-append_self _ d condition.kind e (filter_out_condition-Lacks conditions condition.kind),
        t,
      ),
      λ k n.
          get-append_other (filter_out_condition conditions condition.kind) d k (ground arith)
          ∙ get-filter_out_condition conditions condition.kind k (ground arith),
    )

    by_current :
        (o : Option Condition)
        → get_condition conditions condition.kind ≡ o
        → Result o (replace_condition conditions condition o)
    by_current none e = fresh none condition refl refl
    by_current (some current) e = elim (Bool-cases (is_status current.status condition.status)) [
      | inl s ↦
          by_test (Result (some current))
            (is_status current.status condition.status && current.reason == condition.reason)
            conditions _
            (λ r. ((current, e, (is_status_eq _ _ s, ground arith, λ _. refl)), λ k n. refl))
            (λ r. rw s (
              fresh (some current) (with_transition condition current.last_transition_time) refl
                (refl, refl, λ _. refl)))
      | inr s ↦ rw s (
          fresh (some current) condition refl (
            refl,
            refl,
            λ q. absurd (
                let k =
                  sym (is_status_refl condition.status)
                  ∙ (ap (λ (x : ConditionStatus). is_status x condition.status) (sym q) ∙ s) in
                ground arith),
          ))
    ]

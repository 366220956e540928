-- ===== src/Failover/Hosts/Laws.antt =====
-- What a map of names holds after an assignment and a deletion.
use nebula_operator.Common.{
  true, false, none, some, [], ◌∷◌, ◌≡◌, refl, ap, ◌∙◌, if◌then◌else◌, arith, same, same_eq,
  Bool-cases, inl, inr,
}
use nebula_operator.Scheduler.PodName.{Name}
use nebula_operator.Failover.Hosts.{Table, lookup, put, delete}

same_differs : (n m k : Name) → same n m ≡ true → same n k ≡ same m k
same_differs n m k e = ap (λ x. same x k) (same_eq n m e)

same_other : (n m k : Name) → same k n ≡ false → same k m ≡ true → same n m ≡ false
same_other n m k e f = elim (Bool-cases (same n m)) [
  | inl g ↦ absurd (let y = ap (λ x. same k x) (same_eq n m g) ∙ f in ground arith)
  | inr g ↦ g
]

module _ {A : Type 0} where
  pub lookup-put :
      (table : Table A) (n m : Name) (a : A)
      → lookup (put table n a) m ≡ (if same n m then some a else lookup table m)
  unfolding lookup put
  lookup-put [] n m a = refl
  lookup-put ((k, old) ∷ table) n m a = elim (Bool-cases (same k n)) [
    | inl e ↦ ground (arith, same_differs k n m e)
    | inr e ↦ elim (Bool-cases (same k m)) [
      | inl f ↦ ground (arith, same_other n m k e f)
      | inr f ↦ ground (arith, lookup-put table n m a)
    ]
  ]

  pub lookup-delete :
      (table : Table A) (n m : Name)
      → lookup (delete table n) m ≡ (if same n m then none else lookup table m)
  unfolding lookup delete
  lookup-delete [] n m = elim (Bool-cases (same n m)) [
    | inl e ↦ ground arith
    | inr e ↦ ground arith
  ]
  lookup-delete ((k, old) ∷ table) n m = elim (Bool-cases (same k n)) [
    | inl e ↦ ground (arith, same_differs k n m e, lookup-delete table n m)
    | inr e ↦ elim (Bool-cases (same k m)) [
      | inl f ↦ ground (arith, same_other n m k e f)
      | inr f ↦ ground (arith, lookup-delete table n m)
    ]
  ]

-- ===== src/Runtime/Counting.antt =====
-- How many elements of a list pass a test, and what `set` and a push change of it.
use kelvinclaw.Prelude.{
  ℕ, zero, suc, ◌+◌, ◌≤◌, ◌≡◌, ◌≢◌, ◌⊎◌, inl, inr, refl, ap, arith, Bool, Bool-cases, true, false,
  some, List, [], ◌∷◌, ◌++◌, get_elem?, set,
}

abbrev pub bit : Bool → ℕ
bit true = 1
bit false = 0

module _ {ℓ} {A : Type ℓ} where
  unfoldable pub count : (A → Bool) → List A → ℕ
  count p [] = 0
  count p (x ∷ xs) = bit (p x) + count p xs

  pub count-set :
      (p : A → Bool) (xs : List A) (i : ℕ) (x y : A)
      → get_elem? xs i ≡ some x
      → count p (set xs i y) + bit (p x) ≡ count p xs + bit (p y)
  unfolding count
  count-set p [] i x y h = cc
  count-set p (z ∷ xs) zero x y h = ground arith
  count-set p (z ∷ xs) (suc i) x y h = omega (arith, count-set p xs i x y h)

  pub count-push :
      (p : A → Bool) (xs : List A) (y : A) → count p (xs ++ y ∷ []) ≡ count p xs + bit (p y)
  unfolding count
  count-push p [] y = omega arith
  count-push p (x ∷ xs) y = omega (arith, count-push p xs y)

  pub count-positive :
      (p : A → Bool) (xs : List A) (i : ℕ) (x : A)
      → get_elem? xs i ≡ some x
      → bit (p x) ≤ count p xs
  unfolding count
  count-positive p [] i x h = cc
  count-positive p (z ∷ xs) zero x h = ground arith
  count-positive p (z ∷ xs) (suc i) x h = omega (arith, count-positive p xs i x h)

  -- Where at most one element passes, two that pass stand at the same place.
  pub count_unique :
      (p : A → Bool) (xs : List A) (i j : ℕ) (x y : A)
      → count p xs ≤ 1
      → get_elem? xs i ≡ some x
      → get_elem? xs j ≡ some y
      → p x ≡ true
      → p y ≡ true
      → i ≡ j
  unfolding count
  count_unique p [] i j x y few h k px py = cc
  count_unique p (z ∷ xs) zero zero x y few h k px py = refl
  count_unique p (z ∷ xs) zero (suc j) x y few h k px py = ground (arith, count-positive p xs j y k)
  count_unique p (z ∷ xs) (suc i) zero x y few h k px py = ground (arith, count-positive p xs i x h)
  count_unique p (z ∷ xs) (suc i) (suc j) x y few h k px py =
      ap suc (count_unique p xs i j x y (omega arith) h k px py)

  -- An element after `set` is the new one at its own place, and elsewhere one from before.
  pub get_elem?-set :
      (xs : List A) (i j : ℕ) (y z : A)
      → get_elem? (set xs i y) j ≡ some z
      → i ≢ j
      → get_elem? xs j ≡ some z
  get_elem?-set [] i j y z h n = h
  get_elem?-set (x ∷ xs) zero zero y z h n = absurd (n refl)
  get_elem?-set (x ∷ xs) zero (suc j) y z h n = h
  get_elem?-set (x ∷ xs) (suc i) zero y z h n = h
  get_elem?-set (x ∷ xs) (suc i) (suc j) y z h n = get_elem?-set xs i j y z h (λ e. n (ap suc e))

  pub get_elem?-set_same :
      (xs : List A) (i : ℕ) (y z : A) → get_elem? (set xs i y) i ≡ some z → z ≡ y
  get_elem?-set_same [] i y z h = cc
  get_elem?-set_same (x ∷ xs) zero y z h = cc
  get_elem?-set_same (x ∷ xs) (suc i) y z h = get_elem?-set_same xs i y z h

module _ {ℓ} {A : Type ℓ} where
  -- Some element passes, or none does.
  pub count-search :
      (p : A → Bool) (xs : List A)
      → ((i : ℕ) × (x : A) × (get_elem? xs i ≡ some x) × (p x ≡ true)) ⊎ (count p xs ≡ 0)
  unfolding count
  count-search p [] = inr refl
  count-search p (x ∷ xs) = elim (Bool-cases (p x)) [
    | inl e ↦ inl (0, x, refl, e)
    | inr e ↦ elim (count-search p xs) [
      | inl (i, y, h, q) ↦ inl (suc i, y, h, q)
      | inr none_of ↦ inr (rw e (omega arith))
    ]
  ]

  pub count-le :
      (p q : A → Bool) (xs : List A) → ((x : A) → p x ≡ true → q x ≡ true) → count p xs ≤ count q xs
  unfolding count
  count-le p q [] h = omega arith
  count-le p q (x ∷ xs) h = ground (arith, h x, count-le p q xs h)

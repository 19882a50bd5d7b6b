-- ===== src/Prelude/Distinct.antt =====
-- Lists in which no two items have the same key, for a Boolean test of keys.
use mathlib.Core.Path.{◌≡◌, refl, ◌∙◌}
use mathlib.Core.Bool.{Bool, false}
use mathlib.Core.List.{List, [], ◌∷◌, ◌++◌}
use mathlib.Core.Logic.{inl, inr}
use Prim.Native.Nat.{ℕ, zero, suc}
use native.Mathlib.Omega.{arith}
use kelvinclaw.Prelude.Tests.{Bool-cases}
use kelvinclaw.Prelude.Lists.{any, any-append, drop, retain, All}
use kelvinclaw.Prelude.Sort.{insert_by, sort_by, any-insert_by, any-sort_by}

abbrev pub IsDistinct {ℓ} : {A : Type ℓ} → (A → A → Bool) → List A → Type 0
IsDistinct same [] = Unit {0}
IsDistinct same (x ∷ xs) = (any (same x) xs ≡ false) × IsDistinct same xs

pub All-append {ℓ κ} :
    {A : Type ℓ} (P : A → Type κ) (xs ys : List A) → All P xs → All P ys → All P (xs ++ ys)
All-append P [] ys h k = k
All-append P (x ∷ xs) ys h k = (h.0, All-append P xs ys h.1 k)

module _ {ℓ} {A : Type ℓ} (same : A → A → Bool) where
  pub any-retain_le :
      (p q : A → Bool) (xs : List A) → any p xs ≡ false → any p (retain q xs) ≡ false
  unfolding any retain
  any-retain_le p q [] h = refl
  any-retain_le p q (x ∷ xs) h = ground (arith, any-retain_le p q xs)

  pub IsDistinct-retain :
      (q : A → Bool) (xs : List A) → IsDistinct same xs → IsDistinct same (retain q xs)
  unfolding retain any
  IsDistinct-retain q [] d = tt
  IsDistinct-retain q (x ∷ xs) d = elim (Bool-cases (q x)) [
    | inl e ↦ rw e (any-retain_le (same x) q xs d.0, IsDistinct-retain q xs d.1)
    | inr e ↦ rw e (IsDistinct-retain q xs d.1)
  ]

  pub IsDistinct-drop : (n : ℕ) (xs : List A) → IsDistinct same xs → IsDistinct same (drop n xs)
  IsDistinct-drop zero xs d = d
  IsDistinct-drop (suc n) [] d = tt
  IsDistinct-drop (suc n) (x ∷ xs) d = IsDistinct-drop n xs d.1

module _ {ℓ} {A : Type ℓ} (same : A → A → Bool) (comm : (a b : A) → same a b ≡ same b a) where
  pub IsDistinct-append_one :
      (xs : List A) (x : A)
      → IsDistinct same xs
      → any (same x) xs ≡ false
      → IsDistinct same (xs ++ x ∷ [])
  unfolding any
  IsDistinct-append_one [] x d n = (refl, tt)
  IsDistinct-append_one (y ∷ ys) x d n =
      (rw any-append (ground (arith, d.0, comm y x)), IsDistinct-append_one ys x d.1 (ground arith))

  IsDistinct-insert_by :
      (le : A → A → Bool) (x : A) (xs : List A)
      → any (same x) xs ≡ false
      → IsDistinct same xs
      → IsDistinct same (insert_by le x xs)
  unfolding insert_by any
  IsDistinct-insert_by le x [] n d = (refl, tt)
  IsDistinct-insert_by le x (y ∷ ys) n d = elim (Bool-cases (le x y)) [
    | inl e ↦ rw e (n, d)
    | inr e ↦ rw e (
      any-insert_by (same y) le x ys ∙ ground (arith, comm y x, d.0, n),
      IsDistinct-insert_by le x ys (ground arith) d.1,
    )
  ]

  pub IsDistinct-sort_by :
      (le : A → A → Bool) (xs : List A) → IsDistinct same xs → IsDistinct same (sort_by le xs)
  unfolding sort_by
  IsDistinct-sort_by le [] d = tt
  IsDistinct-sort_by le (x ∷ xs) d =
      IsDistinct-insert_by le x (sort_by le xs) (rw any-sort_by d.0) (IsDistinct-sort_by le xs d.1)

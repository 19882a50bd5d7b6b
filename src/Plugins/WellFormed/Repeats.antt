-- ===== src/Plugins/WellFormed/Repeats.antt =====
-- The loop over the capabilities in crates/kelvin-core/src/sdk.rs, for any list with keys.
use kelvinclaw.Prelude.{ℕ, ◌≡◌, ◌↔◌, refl, ap, arith, Bool, true, false, List, [], ◌∷◌, ◌==◌, any}
use kelvinclaw.Prelude.Distinct.{IsDistinct}

module _ {A : Type 0} (key : A → ℕ) where
  abbrev pub has_key : List A → A → Bool
  has_key seen c = any (λ x. key c == key x) seen

  -- The list is distinct and has none of those seen before, as the loop finds out.
  abbrev pub Fresh : List A → List A → Type 0
  Fresh seen [] = Unit
  Fresh seen (c ∷ cs) = (has_key seen c ≡ false) × Fresh (c ∷ seen) cs

  -- The same without the loop.
  abbrev pub IsFresh : List A → List A → Type 0
  IsFresh seen cs =
      IsDistinct (λ c x. key c == key x) cs
      × ((c : A) → has_key seen c ≡ true → has_key cs c ≡ false)

  has_key-same : (c d : A) (cs : List A) → key d ≡ key c → has_key cs d ≡ has_key cs c
  has_key-same c d cs e = ap (λ r. any (λ x. r == key x) cs) e

  IsFresh-cons :
      (seen : List A) (c : A) (cs : List A)
      → has_key seen c ≡ false
      → IsFresh (c ∷ seen) cs
      → IsFresh seen (c ∷ cs)
  unfolding any
  IsFresh-cons seen c cs n q =
      ((q.1 c (ground arith), q.0), λ d e. ground (arith, has_key-same c d seen, q.1 d))

  has_key-fresh :
      (seen : List A) (c : A) (cs : List A) → IsFresh seen (c ∷ cs) → has_key seen c ≡ false
  unfolding any
  has_key-fresh seen c cs h = ground (arith, h.1 c)

  IsFresh-tail :
      (seen : List A) (c : A) (cs : List A) → IsFresh seen (c ∷ cs) → IsFresh (c ∷ seen) cs
  unfolding any
  IsFresh-tail seen c cs h = (h.0.1, λ d e. ground (arith, has_key-same c d cs, h.0.0, h.1 d))

  pub Fresh-IsFresh : (seen cs : List A) → Fresh seen cs ↔ IsFresh seen cs
  unfolding any
  Fresh-IsFresh seen [] = (λ h. (tt, λ c q. refl), λ h. tt)
  Fresh-IsFresh seen (c ∷ cs) =
      let ih = Fresh-IsFresh (c ∷ seen) cs in
      (
        λ h. IsFresh-cons seen c cs h.0 (ih.0 h.1),
        λ h. (has_key-fresh seen c cs h, ih.1 (IsFresh-tail seen c cs h)),
      )

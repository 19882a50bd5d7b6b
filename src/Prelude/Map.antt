-- ===== src/Prelude/Map.antt =====
-- `HashMap<String, V>` and `HashSet<String>` as lists. Where the source walks over a map, the
-- model walks in the order of the list.
use mathlib.Core.Path.{◌≡◌, refl}
use mathlib.Core.Bool.{Bool, false, ◌&&◌, ◌||◌, not}
use mathlib.Core.Option.{Option, none, some}
use mathlib.Core.List.{List, [], ◌∷◌, ◌++◌}
use native.Mathlib.Omega.{arith}
use kelvinclaw.Prelude.Tests.{if◌then◌else◌}
use kelvinclaw.Prelude.Text.{Text, text_eq, text_eq_iff}

module _ {ℓ} {V : Type ℓ} where
  unfoldable pub lookup : Text → List (Text × V) → Option V
  lookup k [] = none
  lookup k ((j, v) ∷ m) = if text_eq j k then some v else lookup k m

  unfoldable pub insert : Text → V → List (Text × V) → List (Text × V)
  insert k v [] = (k, v) ∷ []
  insert k v ((j, w) ∷ m) =
      let rest = insert k v m in if text_eq j k then (k, v) ∷ m else (j, w) ∷ rest

  unfoldable pub remove : Text → List (Text × V) → List (Text × V)
  remove k [] = []
  remove k ((j, w) ∷ m) = let rest = remove k m in if text_eq j k then rest else (j, w) ∷ rest

  pub lookup-insert :
      (k j : Text) (v : V) (m : List (Text × V))
      → lookup j (insert k v m) ≡ (if text_eq k j then some v else lookup j m)
  unfolding lookup insert
  lookup-insert k j v [] = refl
  lookup-insert k j v ((i, w) ∷ m) =
      ground (arith, text_eq_iff k j, text_eq_iff i k, text_eq_iff i j, lookup-insert k j v m)

  pub lookup-remove :
      (k j : Text) (m : List (Text × V))
      → lookup j (remove k m) ≡ (if text_eq k j then none else lookup j m)
  unfolding lookup remove
  lookup-remove k j [] = ground arith
  lookup-remove k j ((i, w) ∷ m) =
      ground (arith, text_eq_iff k j, text_eq_iff i k, text_eq_iff i j, lookup-remove k j m)

-- `HashSet::contains`, `insert` and `remove`
unfoldable pub contains : List Text → Text → Bool
contains [] t = false
contains (s ∷ ss) t = text_eq s t || contains ss t

unfoldable pub add : Text → List Text → List Text
add t ss = if contains ss t then ss else t ∷ ss

unfoldable pub delete : Text → List Text → List Text
delete t [] = []
delete t (s ∷ ss) = let rest = delete t ss in if text_eq s t then rest else s ∷ rest

pub contains-add :
    (t u : Text) (ss : List Text) → contains (add t ss) u ≡ (text_eq t u || contains ss u)
unfolding add contains
contains-add t u ss = ground (arith, text_eq_iff t u)

pub contains-delete :
    (t u : Text) (ss : List Text) → contains (delete t ss) u ≡ (not (text_eq t u) && contains ss u)
unfolding delete contains
contains-delete t u [] = ground arith
contains-delete t u (s ∷ ss) =
    ground (arith, text_eq_iff t u, text_eq_iff s t, text_eq_iff s u, contains-delete t u ss)

pub contains-append :
    (ss ts : List Text) (u : Text) → contains (ss ++ ts) u ≡ (contains ss u || contains ts u)
unfolding contains
contains-append [] ts u = refl
contains-append (s ∷ ss) ts u = ground (arith, contains-append ss ts u)

-- ===== src/Tools/Confined.antt =====
-- Where in the file system a path leads that the writing tool takes.
use kelvinclaw.Prelude.{
  subst, ◌≡◌, refl, ap, ◌∙◌, Bool-cases, Bool, true, false, ◌||◌, ◌⊎◌, inl, inr, Option, none, some,
  List, [], ◌∷◌, ◌++◌, any, if◌then◌else◌, ◌==◌, arith,
}
use kelvinclaw.Prelude.Text.{Text, lit, text_eq, is_empty}
use kelvinclaw.Prelude.Error.{KelvinError, refuse_if, ◌>>◌, ok, then-ok, refuse_if-ok, ok-injective}
use kelvinclaw.Plugins.Manifest.{starts_with}
use kelvinclaw.Tools.Paths.{
  segments, put, is_parent_dir, normalize_workspace_relative_path, write_scope_allowed,
}

-- The way from a folder along segments: the folders below the workspace, the innermost first, or
-- none where it leaves the workspace.
unfoldable pub walk : List Text → List Text → Option (List Text)
unfolding is_parent_dir
walk stack [] = some stack
walk stack (segment ∷ rest) =
    if is_empty segment || text_eq segment (lit ".")
    then walk stack rest
    else if is_parent_dir segment
    then elim stack [ [] ↦ none | top ∷ below ↦ walk below rest ]
    else walk (segment ∷ stack) rest

-- A path that leads to a place at or below a folder of the workspace.
abbrev pub LeadsBelow : List Text → Text → Type 0
LeadsBelow root path = (below : List Text) × (walk [] (segments path) ≡ some (below ++ root))

-- `any` fails on a list where it fails on its head and its tail.
any_parts :
    (segment : Text) (rest : List Text)
    → any is_parent_dir (segment ∷ rest) ≡ false
    → (is_parent_dir segment ≡ false) × (any is_parent_dir rest ≡ false)
unfolding any
any_parts segment rest h = ground (arith, h)

append_middle :
    (below stack : List Text) (x : Text) → below ++ (x ∷ stack) ≡ (below ++ (x ∷ [])) ++ stack
append_middle [] stack x = refl
append_middle (b ∷ below) stack x = ap (λ l. b ∷ l) (append_middle below stack x)

-- Segments that do not lead up lead down, or nowhere.
walk-below :
    (stack segs : List Text)
    → any is_parent_dir segs ≡ false
    → (below : List Text) × (walk stack segs ≡ some (below ++ stack))
unfolding walk
walk-below stack [] h = ([], refl)
walk-below stack (segment ∷ rest) h =
    let parts = any_parts segment rest h in
    elim (Bool-cases (is_empty segment || text_eq segment (lit "."))) [
      | inl q ↦ rw q (walk-below stack rest parts.1)
      | inr q ↦
          let (below, e) = walk-below (segment ∷ stack) rest parts.1 in
          (
            below ++ (segment ∷ []),
            rw q (rw parts.0 (e ∙ ap some (append_middle below stack segment))),
          )
    ]

split : (s p : Text) → starts_with s p ≡ true → (rest : Text) × (s ≡ p ++ rest)
unfolding starts_with
split s [] h = (s, refl)
split [] (p ∷ ps) h = cc
split (c ∷ s) (p ∷ ps) h =
    let (rest, e) = split s ps (ground (arith, h)) in
    let q : c ≡ p = ground (arith, h) in (rest, rw q (ap (λ t. p ∷ t) e))

-- The last of three tests, where all have passed.
last_passes :
    (b c d : Bool) (e f g : KelvinError) (n q : Text)
    → refuse_if b e >> refuse_if c f >> refuse_if d g >> ok n ≡ ok q
    → (d ≡ false) × (n ≡ q)
last_passes b c d e f g n q h =
    let (passed, same) = then-ok (refuse_if b e >> refuse_if c f >> refuse_if d g) (ok n) q h in
    let (before, last) = then-ok (refuse_if b e >> refuse_if c f) (refuse_if d g) tt passed in
    (refuse_if-ok d g last, ok-injective same)

pub normalize_workspace_relative_path-ok :
    (path field_name q : Text)
    → normalize_workspace_relative_path path field_name ≡ ok q
    → any is_parent_dir (segments q) ≡ false
unfolding normalize_workspace_relative_path
normalize_workspace_relative_path-ok path field_name q h =
    let (e, same) = last_passes _ _ _ _ _ _ _ q h in
    subst (λ t. any is_parent_dir (segments t) ≡ false) same e

-- Being below one of the allowed roots.
abbrev pub Confined : Text → Type 0
Confined path =
    LeadsBelow (lit "sandbox" ∷ lit ".kelvinclaw" ∷ []) path
    ⊎ (LeadsBelow (lit "memory" ∷ []) path ⊎ LeadsBelow (lit "notes" ∷ []) path)

scope-cases :
    (path : Text)
    → write_scope_allowed path ≡ true
    → (starts_with path (lit ".kelvinclaw/sandbox/") ≡ true)
      ⊎ ((starts_with path (lit "memory/") ≡ true) ⊎ (starts_with path (lit "notes/") ≡ true))
unfolding write_scope_allowed any
scope-cases path h = ground (arith, h)

-- A folder's name up to its slash is the first segment of a path.
segments-name :
    (name rest : Text)
    → any (λ c. c == b'/') name ≡ false
    → segments (name ++ (b'/' ∷ rest)) ≡ name ∷ segments rest
unfolding segments put any
segments-name [] rest h = refl
segments-name (c ∷ name) rest h =
    let slash : (c == b'/') ≡ false = ground (arith, h) in
    rw slash (rw (segments-name name rest (ground (arith, h))) refl)

-- The way along a path goes into its first folder.
enter :
    (stack : List Text) (name rest : Text)
    → any (λ c. c == b'/') name ≡ false
    → is_empty name || text_eq name (lit ".") ≡ false
    → any is_parent_dir (segments (name ++ (b'/' ∷ rest))) ≡ false
    → (walk stack (segments (name ++ (b'/' ∷ rest))) ≡ walk (name ∷ stack) (segments rest))
      × (any is_parent_dir (segments rest) ≡ false)
unfolding walk
enter stack name rest slash plain h =
    let q = segments-name name rest slash in
    let parts = any_parts name (segments rest) (subst (λ l. any is_parent_dir l ≡ false) q h) in
    (ap (walk stack) q ∙ rw plain (rw parts.0 refl), parts.1)

root-LeadsBelow :
    (name path rest : Text)
    → any (λ c. c == b'/') name ≡ false
    → is_empty name || text_eq name (lit ".") ≡ false
    → any is_parent_dir (segments path) ≡ false
    → path ≡ name ++ (b'/' ∷ rest)
    → LeadsBelow (name ∷ []) path
root-LeadsBelow name path rest slash plain h q =
    let (w, inside) =
      enter [] name rest slash plain (subst (λ t. any is_parent_dir (segments t) ≡ false) q h) in
    let (below, v) = walk-below (name ∷ []) (segments rest) inside in
    (below, ap (λ t. walk [] (segments t)) q ∙ w ∙ v)

roots-LeadsBelow :
    (outer name path rest : Text)
    → any (λ c. c == b'/') outer ≡ false
    → is_empty outer || text_eq outer (lit ".") ≡ false
    → any (λ c. c == b'/') name ≡ false
    → is_empty name || text_eq name (lit ".") ≡ false
    → any is_parent_dir (segments path) ≡ false
    → path ≡ outer ++ (b'/' ∷ (name ++ (b'/' ∷ rest)))
    → LeadsBelow (name ∷ outer ∷ []) path
roots-LeadsBelow outer name path rest slash plain slash' plain' h q =
    let (w, h') =
      enter [] outer (name ++ (b'/' ∷ rest)) slash plain
        (subst (λ t. any is_parent_dir (segments t) ≡ false) q h) in
    let (w', inside) = enter (outer ∷ []) name rest slash' plain' h' in
    let (below, v) = walk-below (name ∷ outer ∷ []) (segments rest) inside in
    (below, ap (λ t. walk [] (segments t)) q ∙ w ∙ w' ∙ v)

pub write_scope_allowed-Confined :
    (path : Text)
    → any is_parent_dir (segments path) ≡ false
    → write_scope_allowed path ≡ true
    → Confined path
unfolding any is_empty text_eq
write_scope_allowed-Confined path h e = elim (scope-cases path e) [
  | inl s ↦
      let (rest, q) = split path (lit ".kelvinclaw/sandbox/") s in
      inl (roots-LeadsBelow (lit ".kelvinclaw") (lit "sandbox") path rest refl refl refl refl h q)
  | inr (inl s) ↦
      let (rest, q) = split path (lit "memory/") s in
      inr (inl (root-LeadsBelow (lit "memory") path rest refl refl h q))
  | inr (inr s) ↦
      let (rest, q) = split path (lit "notes/") s in
      inr (inr (root-LeadsBelow (lit "notes") path rest refl refl h q))
]

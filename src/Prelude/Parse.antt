-- ===== src/Prelude/Parse.antt =====
-- What the source uses of `str` to take a text apart: splitting and parsing unsigned numbers.
use Prim.Native.Nat.{ℕ, ◌+◌, ◌-◌, ◌*◌}
use mathlib.Core.Bool.{◌&&◌}
use mathlib.Core.Option.{Option, none, some}
use mathlib.Core.List.{List, [], ◌∷◌, ◌++◌}
use kelvinclaw.Prelude.Tests.{leb, ◌==◌, if◌then◌else◌}
use kelvinclaw.Prelude.Text.{Text, is_whitespace}

-- Puts a character in front of the first piece.
unfoldable pub push_first : ℕ → List Text → List Text
push_first c [] = (c ∷ []) ∷ []
push_first c (p ∷ ps) = (c ∷ p) ∷ ps

-- `raw.split(sep)`: one more piece than there are separators
unfoldable pub split : ℕ → Text → List Text
unfolding push_first
split sep [] = [] ∷ []
split sep (c ∷ s) = let rest = split sep s in if c == sep then [] ∷ rest else push_first c rest

-- `raw.split_once(sep)`: what stands before and after the first separator
unfoldable pub split_once : ℕ → Text → Option (Text × Text)
split_once sep [] = none
split_once sep (c ∷ s) =
    let rest = split_once sep s in
    if c == sep then some ([], s) else elim rest [ none ↦ none | some (a, b) ↦ some (c ∷ a, b) ]

emit : Text → List Text → List Text
emit [] ps = ps
emit (c ∷ w) ps = (c ∷ w) ∷ ps

-- `w` is the piece read so far.
words : Text → Text → List Text
unfolding emit is_whitespace
words w [] = emit w []
words w (c ∷ s) =
    let gap = emit w (words [] s) in
    let more = words (w ++ c ∷ []) s in if is_whitespace c then gap else more

-- `raw.split_whitespace()`: the maximal pieces with no white space
unfoldable pub split_whitespace : Text → List Text
unfolding words
split_whitespace s = words [] s

abbrev pub usize_max : ℕ
usize_max = 18446744073709551615

unfoldable pub parse_digits : ℕ → Text → Option ℕ
parse_digits n [] = some n
parse_digits n (c ∷ s) =
    let rest = parse_digits (n * 10 + (c - 48)) s in
    if leb b'0' c && leb c b'9' && leb (n * 10 + (c - 48)) usize_max then rest else none

-- `raw.parse::<usize>()` on a 64-bit target: an optional `+`, then digits, and no overflow
unfoldable pub parse_usize : Text → Option ℕ
unfolding parse_digits
parse_usize [] = none
parse_usize (c ∷ []) = if c == b'+' then none else parse_digits 0 (c ∷ [])
parse_usize (c ∷ d ∷ s) = if c == b'+' then parse_digits 0 (d ∷ s) else parse_digits 0 (c ∷ d ∷ s)

-- ===== src/Channel/Slash.antt =====
-- Slash commands (`parse_slash_input` and `lookup_meta` of crates/kelvin-commands/src/lib.rs).
use kelvinclaw.Prelude.{
  Bool, true, false, ◌||◌, Option, none, some, List, [], ◌∷◌, ◌==◌, if◌then◌else◌,
}
use kelvinclaw.Prelude.Text.{Text, text_eq, trim, is_empty, is_whitespace, to_ascii_lowercase}
use kelvinclaw.Channel.Types.{
  SlashCommandMeta, CommandSurface, surface_index, SenderTrustTier, tier_lt,
}

-- `body.splitn(2, char::is_whitespace)`: what stands before and after the first white space
unfoldable pub split_word : Text → Text × Text
split_word [] = ([], [])
split_word (c ∷ s) =
    let rest = split_word s in if is_whitespace c then ([], s) else (c ∷ rest.0, rest.1)

parse_body : Text → Option (Text × Text)
unfolding split_word
parse_body body =
    let name = to_ascii_lowercase (trim (split_word body).0) in
    if is_empty name then none else some (name, trim (split_word body).1)

-- The name and the arguments of a command, where the text begins with a slash.
unfoldable pub parse_slash_input : Text → Option (Text × Text)
unfolding parse_body
parse_slash_input [] = none
parse_slash_input (c ∷ body) = if c == b'/' then parse_body body else none

find_meta : Text → List SlashCommandMeta → Option SlashCommandMeta
find_meta lower [] = none
find_meta lower (m ∷ remote) = if text_eq m.name lower then some m else find_meta lower remote

unfoldable pub lookup_meta : List SlashCommandMeta → Text → Option SlashCommandMeta
unfolding find_meta
lookup_meta remote name = find_meta (to_ascii_lowercase name) remote

-- `meta.surfaces.is_empty() || meta.surfaces.contains(&surface)`
unfoldable pub surface_ok : SlashCommandMeta → CommandSurface → Bool
unfolding surface_index
surface_ok m surface = none_listed m.surfaces || listed m.surfaces
  where
    none_listed : List CommandSurface → Bool
    none_listed [] = true
    none_listed (_ ∷ _) = false

    listed : List CommandSurface → Bool
    listed [] = false
    listed (s ∷ surfaces) = surface_index s == surface_index surface || listed surfaces

-- the command that a message of this surface names
unfoldable pub command_of :
    List SlashCommandMeta → CommandSurface → Text → Option (SlashCommandMeta × Text × Text)
command_of remote surface message = elim (parse_slash_input message) [
  | none ↦ none
  | some (name, args) ↦ elim (lookup_meta remote name) [
    | none ↦ none
    | some m ↦ if surface_ok m surface then some (m, name, args) else none
  ]
]

-- `trust_tier < min_tier`
unfoldable pub tier_too_low : SlashCommandMeta → SenderTrustTier → Bool
tier_too_low m tier = elim m.min_tier [ none ↦ false | some min_tier ↦ tier_lt tier min_tier ]

-- ===== src/Tools/Paths.antt =====
-- The tests on a path before a file is read or written: crates/kelvin-sdk/src/toolpack.rs. A path of
-- the standard library is read as on Unix, as segments between slashes.
use kelvinclaw.Prelude.{ℕ, Bool, ◌||◌, List, [], ◌∷◌, map, ◌==◌, if◌then◌else◌, any}
use kelvinclaw.Prelude.Text.{Text, lit, text_eq, trim, is_empty, to_ascii_lowercase}
use kelvinclaw.Prelude.Error.{KelvinResult, ok, invalid_input, literal, with_text, refuse_if, ◌>>◌}
use kelvinclaw.Plugins.Manifest.{starts_with}

-- `Path::components`, with the empty segments and those of one dot, which it leaves out.
unfoldable pub put : ℕ → List Text → List Text
put c [] = (c ∷ []) ∷ []
put c (segment ∷ rest) = (c ∷ segment) ∷ rest

unfoldable pub segments : Text → List Text
unfolding put
segments [] = [] ∷ []
segments (c ∷ s) = let rest = segments s in if c == b'/' then [] ∷ rest else put c rest

-- `Component::ParentDir`
unfoldable pub is_parent_dir : Text → Bool
is_parent_dir segment = text_eq segment (lit "..")

unfoldable pub normalize_workspace_relative_path : Text → Text → KelvinResult Text
unfolding is_parent_dir
normalize_workspace_relative_path path field_name =
    let normalized = map (λ c. if c == 92 then b'/' else c) (trim path) in
    refuse_if (is_empty normalized)
      (invalid_input (with_text (literal "{field_name} must not be empty") field_name))
    >> refuse_if (starts_with normalized (lit "/"))
        (invalid_input (with_text (literal "{field_name} must be a relative path") field_name))
    >> refuse_if (any is_parent_dir (segments normalized)) (
        invalid_input (with_text (literal "{field_name} path traversal is not allowed") field_name))
    >> ok normalized

abbrev pub sensitive_paths_compare : List Text
sensitive_paths_compare = lit ".env" ∷ []

abbrev pub sensitive_paths_prefix : List Text
sensitive_paths_prefix =
    lit ".env." ∷ lit ".git/" ∷ lit ".kelvin/plugins/" ∷ lit ".kelvinclaw/plugins/" ∷ []

unfoldable pub deny_sensitive_read_path : Text → Bool
deny_sensitive_read_path path =
    let lower = to_ascii_lowercase path in
    any (λ p. text_eq p lower) sensitive_paths_compare
    || any (λ p. starts_with lower p) sensitive_paths_prefix

abbrev pub default_fs_write_scope : List Text
default_fs_write_scope = lit ".kelvinclaw/sandbox/" ∷ lit "memory/" ∷ lit "notes/" ∷ []

unfoldable pub write_scope_allowed : Text → Bool
write_scope_allowed path = any (λ p. starts_with path p) default_fs_write_scope

-- ===== src/Tools/Files.antt =====
-- What `fs_safe_read` and `fs_safe_write` of crates/kelvin-sdk/src/toolpack.rs settle before they
-- touch a file. The calls of the file system that follow take the settled path below the workspace.
use kelvinclaw.Prelude.{ℕ, Bool, not, ◌||◌, Option, none, some, List, min, max}
use kelvinclaw.Prelude.Text.{Text, lit, text_eq, to_ascii_lowercase}
use kelvinclaw.Prelude.Error.{
  KelvinResult, ok, invalid_input, literal, with_text, refuse_if, ◌>>◌, ◌>>=◌,
}
use kelvinclaw.Tools.Paths.{
  normalize_workspace_relative_path, deny_sensitive_read_path, write_scope_allowed,
}
use kelvinclaw.Tools.Arguments.{
  JsonValues, args_object, required_string, required_string_content, optional_string, optional_u64,
  require_sensitive_approval, value_or,
}

pub record ToolPackPolicy : Type 0 where
  pub allow_fs_write : Bool
  pub allow_web_fetch : Bool
  pub allow_scheduler_write : Bool
  pub allow_session_clear : Bool
  pub max_read_bytes : ℕ
  pub max_fetch_bytes : ℕ
  pub web_allow_hosts : List Text

-- `clamp_usize`, on a machine whose `usize` has 64 bits
unfoldable pub clamp_usize : ℕ → ℕ → ℕ
clamp_usize raw max_allowed = min raw max_allowed

-- What a file is read with.
pub record ReadPlan : Type 0 where
  pub path : Text
  pub read_limit : ℕ

-- What a file is written with.
pub record WritePlan : Type 0 where
  pub path : Text
  pub mode : Text
  pub content : Text
  pub approval_reason : Text

-- The number of bytes to read, for the limit of the policy and that of the call.
unfoldable pub read_limit_of : ℕ → Option ℕ → ℕ
unfolding clamp_usize
read_limit_of limit none = max limit 1
read_limit_of limit (some value) = max (clamp_usize value limit) 1

unfoldable pub is_mode : Text → Bool
is_mode mode = text_eq mode (lit "overwrite") || text_eq mode (lit "append")

module _ (json : JsonValues) (policy : ToolPackPolicy) where
  unfoldable pub plan_read : json.Value → KelvinResult ReadPlan
  plan_read arguments = args_object json arguments "fs_safe_read" >>= λ args.
      required_string json args "path" "fs_safe_read" >>= λ raw.
      normalize_workspace_relative_path raw (lit "path") >>= λ path.
      refuse_if (deny_sensitive_read_path path)
        (invalid_input (with_text (literal "fs_safe_read denied path '{}' by policy") path))
      >> (optional_u64 json args "max_bytes" "fs_safe_read" >>= λ requested.
          ok (record { path = path; read_limit = read_limit_of policy.max_read_bytes requested }))

  unfoldable pub plan_write : json.Value → KelvinResult WritePlan
  unfolding is_mode
  plan_write arguments =
      refuse_if (not policy.allow_fs_write) (
        invalid_input (
          literal
            "fs_safe_write is disabled by runtime policy; set KELVIN_TOOLPACK_ENABLE_FS_WRITE=1 to enable"))
      >> (args_object json arguments "fs_safe_write" >>= λ args.
          require_sensitive_approval json args "filesystem_write" >>= λ approval_reason.
          required_string json args "path" "fs_safe_write" >>= λ raw.
          normalize_workspace_relative_path raw (lit "path") >>= λ path.
          refuse_if (not (write_scope_allowed path)) (
            invalid_input (
              with_text
                (literal
                  "fs_safe_write denied path '{}'; allowed roots are .kelvinclaw/sandbox/, memory/, notes/")
                path))
          >> (required_string_content json args "content" "fs_safe_write" >>= λ content.
              optional_string json args "mode" "fs_safe_write" >>= λ given.
              let mode = to_ascii_lowercase (value_or given (lit "overwrite")) in
              refuse_if (not (is_mode mode)) (
                invalid_input
                  (literal "fs_safe_write argument 'mode' must be 'overwrite' or 'append'"))
              >> ok (record {
                path = path;
                mode = mode;
                content = content;
                approval_reason = approval_reason;
              })))

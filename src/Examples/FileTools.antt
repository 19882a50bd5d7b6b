-- ===== src/Examples/FileTools.antt =====
-- Writes and reads of the tools of crates/kelvin-sdk/src/toolpack.rs.
use kelvinclaw.Prelude.{if◌then◌else◌, true, false, ◌≡◌, refl, none, some, [], any, String, Option}
use kelvinclaw.Prelude.Text.{Text, lit, trim, text_eq, is_empty, is_control, to_ascii_lowercase}
use kelvinclaw.Prelude.Error.{ok}
use kelvinclaw.Plugins.Manifest.{starts_with}
use kelvinclaw.Tools.Paths.{normalize_workspace_relative_path, deny_sensitive_read_path, segments}
use kelvinclaw.Tools.Arguments.{JsonValues, args_object, required_string, optional_u64}
use kelvinclaw.Tools.Files.{ToolPackPolicy, WritePlan, plan_read, read_limit_of}

-- Values that are a text, a flag, or an object of some fields.
mutual
  data Value : Type 0 where
    granted : Value
    written : Text → Value
    fields : Members → Value

  data Members : Type 0 where
    no_more : Members
    member : String → Value → Members → Members

member_of : Members → String → Option Value
unfolding text_eq
member_of no_more name = none
member_of (member key value rest) name =
    let found = member_of rest name in if text_eq (lit key) (lit name) then some value else found

abbrev values : JsonValues
values = record {
  Value = Value;
  as_str = λ v. elim v [ granted ↦ none | written t ↦ some t | fields m ↦ none ];
  as_bool = λ v. elim v [ granted ↦ some true | written t ↦ none | fields m ↦ none ];
  as_u64 = λ v. none;
  as_object = λ v. elim v [ granted ↦ none | written t ↦ none | fields m ↦ some (member_of m) ];
}

abbrev policy : ToolPackPolicy
policy = record {
  allow_fs_write = true;
  allow_web_fetch = false;
  allow_scheduler_write = false;
  allow_session_clear = false;
  max_read_bytes = 100;
  max_fetch_bytes = 100;
  web_allow_hosts = [];
}

-- A call to write a note.
abbrev write_note : Value
write_note = fields (
    member "path" (written (lit "notes/a")) (
      member "content" (written (lit "b")) (
        member "approval"
          (fields (member "granted" granted (member "reason" (written (lit "asked for")) no_more)))
          no_more)))

abbrev plan : WritePlan
plan = record {
  path = lit "notes/a";
  mode = lit "overwrite";
  content = lit "b";
  approval_reason = lit "asked for";
}

-- The file that the tests of a sensitive path guard, by another name, is read.
env_read :
    plan_read values policy (fields (member "path" (written (lit "./.env")) no_more))
    ≡ ok (record { path = lit "./.env"; read_limit = 100 })
unfolding plan_read member_of text_eq args_object required_string is_empty trim any is_control
    normalize_workspace_relative_path starts_with segments deny_sensitive_read_path
    to_ascii_lowercase optional_u64 read_limit_of
env_read = refl

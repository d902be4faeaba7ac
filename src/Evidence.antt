-- ===== src/Evidence.antt =====
-- src/toolboundary/evidence.py: the canonical form of a tool call, its digest, and the record of
-- an execution. `json.dumps` without its key sorting, and SHA-256, are parameters.
pub mod Order
pub mod Content
use Prim.Native.String.{String, compare}
use text.Mathlib.Text.{is_le}
use toolboundary.Common.{ℕ, Option, none, some, if◌then◌else◌}
use toolboundary.Json.{
  Json, null, boolean, number, string, array, object, Items, nil, cons, Fields, end, field,
}
use toolboundary.Provider.{FrozenToolCall, ExecutionRecord, success, error, unknown}

pub record Hashing : Type 0 where
  -- `json.dumps(value, separators=(",", ":"), ensure_ascii=False, default=str)`
  pub dumps : Json → String
  -- `hashlib.sha256(data.encode("utf-8")).hexdigest()`
  pub sha256 : String → String

-- a dict's items sorted by key, as `sort_keys=True` writes them
unfoldable pub insert_sorted : String → Json → Fields → Fields
insert_sorted k v end = field k v end
insert_sorted k v (field j w fs) =
    if is_le (compare k j) then field k v (field j w fs) else field j w (insert_sorted k v fs)

unfoldable mutual
  unfolding insert_sorted

  pub sort_keys : Json → Json
  sort_keys null = null
  sort_keys (boolean b) = boolean b
  sort_keys (number n) = number n
  sort_keys (string s) = string s
  sort_keys (array xs) = array (sort_items xs)
  sort_keys (object fs) = object (sort_fields fs)

  pub sort_items : Items → Items
  sort_items nil = nil
  sort_items (cons x xs) = cons (sort_keys x) (sort_items xs)

  pub sort_fields : Fields → Fields
  sort_fields end = end
  sort_fields (field k v fs) = insert_sorted k (sort_keys v) (sort_fields fs)

unfoldable pub optional : Option String → Json
optional none = null
optional (some s) = string s

-- the dict `binding` of `call_digest`
unfoldable pub binding : FrozenToolCall → Json
unfolding optional
binding call = object (
    field "agent_name" (string call.agent_name) (
      field "tool_name" (string call.tool_name) (
        field "operation" (optional call.operation) (
          field "arguments" (object call.arguments) (
            field "resource" (optional call.resource) (
              field "tool_version" (optional call.tool_version) (
                field "schema_hash" (optional call.schema_hash) (
                  field "manifest_hash" (optional call.manifest_hash) (
                    field "approval_id" (optional call.approval_id)
                      (field "approval_state" (optional call.approval_state) end))))))))))

-- an exception, as far as the record keeps it: `type(error).__name__` and `str(error)`
pub record PyError : Type 0 where
  pub type_name : String
  pub text : String

-- the `result` argument: not given (`_UNSET`), or a value, `null` for None
pub data ToolResult : Type 0 where
  unset : ToolResult
  value : Json → ToolResult

module _ (H : Hashing) where
  unfoldable pub canonicalize : Json → String
  canonicalize v = H.dumps (sort_keys v)

  unfoldable pub call_digest : FrozenToolCall → String
  unfolding canonicalize
  call_digest call = H.sha256 (canonicalize (binding call))

  unfoldable pub result_digest : Json → String
  unfolding canonicalize
  result_digest result = H.sha256 (canonicalize result)

  unfoldable pub freeze_with_digest : FrozenToolCall → FrozenToolCall
  freeze_with_digest call = record call { call_digest = call_digest call }

  -- `None if result is None else result_digest(result)`
  unfoldable pub digest_of_value : Json → Option String
  digest_of_value null = none
  digest_of_value v = some (result_digest v)

  unfoldable pub build_execution_record :
      String → ℕ → ℕ → ToolResult → Option PyError → ExecutionRecord
  unfolding digest_of_value
  build_execution_record digest started finished result (some exc) = record {
    call_digest = digest;
    status = error;
    started_at = started;
    finished_at = finished;
    result_digest = none;
    error_type = some exc.type_name;
    error_message = some exc.text;
    observed_by = "runtime";
  }
  build_execution_record digest started finished (value v) none = record {
    call_digest = digest;
    status = success;
    started_at = started;
    finished_at = finished;
    result_digest = digest_of_value v;
    error_type = none;
    error_message = none;
    observed_by = "runtime";
  }
  build_execution_record digest started finished unset none = record {
    call_digest = digest;
    status = unknown;
    started_at = started;
    finished_at = finished;
    result_digest = none;
    error_type = none;
    error_message = none;
    observed_by = "runtime";
  }

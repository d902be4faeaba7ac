-- ===== src/Tests/Digest.antt =====
-- A call whose arguments come in two orders.
use toolboundary.Common.{◌≡◌, ◌≢◌, true, none, String, eq_iff}
use toolboundary.Json.{boolean, null, object, Fields, end, field}
use toolboundary.Provider.{FrozenToolCall}
use toolboundary.Evidence.{call_digest}
use toolboundary.Evidence.Order.{
  SameFields, as_is, in_object, no_fields, kept, swapped, call_digest-order,
}
use toolboundary.Tests.Data.{hashing}

apart : ◌≢◌ {A = String} "a" "b"
apart h = cc ((eq_iff "a" "b").1 h)

abbrev inner : Fields
inner = field "a" null (field "b" (boolean true) end)

abbrev inner_swapped : Fields
inner_swapped = field "b" (boolean true) (field "a" null end)

abbrev arguments : Fields
arguments = field "b" null (field "a" (object inner) end)

abbrev rearranged : Fields
rearranged = field "b" null (field "a" (object inner_swapped) end)

abbrev call : FrozenToolCall
call = record {
  agent_name = "agent";
  tool_name = "search";
  operation = none;
  arguments = arguments;
  resource = none;
  tool_version = none;
  schema_hash = none;
  manifest_hash = none;
  approval_id = none;
  approval_state = none;
  call_digest = "";
}

arguments-Same : SameFields arguments rearranged
arguments-Same = kept "b" null null _ _ (as_is null) (
    kept "a" (object inner) (object inner_swapped) end end
      (in_object inner inner_swapped (swapped "a" "b" null (boolean true) end apart)) no_fields)

call_digest-order_example :
    call_digest hashing call ≡ call_digest hashing (record call { arguments = rearranged })
call_digest-order_example = call_digest-order hashing call rearranged arguments-Same

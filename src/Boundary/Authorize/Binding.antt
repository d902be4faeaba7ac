-- ===== src/Boundary/Authorize/Binding.antt =====
-- What an authorization of src/toolboundary/boundary.py says of the call, written out.
use toolboundary.Common.{◌≡◌, refl, ap, ◌∙◌, String, Option, none, some}
use toolboundary.Enums.{DecisionType}
use toolboundary.Json.{Json, null, string, object, Fields, end, field}
use toolboundary.Evidence.{
  Hashing, insert_sorted, sort_keys, sort_fields, optional, binding, canonicalize, call_digest,
  freeze_with_digest,
}
use toolboundary.Evidence.Content.{RearrangedFields, sort_fields-Rearranged}
use toolboundary.Provider.{AuthorizationContext, ProviderGrant}
use toolboundary.Boundary.{Settings}
use toolboundary.Boundary.Authorize.{AuthorizeCall, AuthorizeMoment, frozen_call, authorization}
use toolboundary.Boundary.Authorize.Answers.{shown_call}

abbrev pub text_or_null : Option String → Json
text_or_null none = null
text_or_null (some s) = string s

-- the whole call as one JSON value, with its keys in order
abbrev pub canonical_call : String → AuthorizeCall → Fields → Json
canonical_call agent_name a arguments = object (
    field "agent_name" (string agent_name) (
      field "approval_id" (text_or_null a.approval_id) (
        field "approval_state" (text_or_null a.approval_state) (
          field "arguments" (object arguments) (
            field "manifest_hash" (text_or_null a.manifest_hash) (
              field "operation" (text_or_null a.operation) (
                field "resource" (text_or_null a.resource) (
                  field "schema_hash" (text_or_null a.schema_hash) (
                    field "tool_name" (string a.tool_name)
                      (field "tool_version" (text_or_null a.tool_version) end))))))))))

-- An authorization that is bound to a call: it carries the caller's data, a digest of all of them,
-- the arguments included in some order of their keys, and the decision ALLOW on the call.
pub record Bound (H : Hashing) (b : Settings) (a : AuthorizeCall) (x : AuthorizationContext)
    : Type 0 where
  pub agent_name : x.frozen_call.agent_name ≡ b.agent_name
  pub tool_name : x.frozen_call.tool_name ≡ a.tool_name
  pub operation : x.frozen_call.operation ≡ a.operation
  pub arguments : x.frozen_call.arguments ≡ a.arguments
  pub resource : x.frozen_call.resource ≡ a.resource
  pub tool_version : x.frozen_call.tool_version ≡ a.tool_version
  pub schema_hash : x.frozen_call.schema_hash ≡ a.schema_hash
  pub manifest_hash : x.frozen_call.manifest_hash ≡ a.manifest_hash
  pub approval_id : x.frozen_call.approval_id ≡ a.approval_id
  pub approval_state : x.frozen_call.approval_state ≡ a.approval_state
  pub sorted : Fields
  pub rearranged : RearrangedFields a.arguments sorted
  pub digest : x.frozen_call.call_digest ≡ H.sha256 (H.dumps (canonical_call b.agent_name a sorted))
  pub decision : x.local_decision.decision ≡ DecisionType.allow
  pub decided_agent : x.local_decision.agent_name ≡ b.agent_name
  pub decided_tool : x.local_decision.tool_name ≡ a.tool_name
  pub decided_operation : x.local_decision.operation ≡ a.operation
  pub unreasoned : x.local_decision.reason_code ≡ none

optional-eq : (o : Option String) → sort_keys (optional o) ≡ text_or_null o
unfolding sort_keys optional
optional-eq none = refl
optional-eq (some s) = refl

-- the items of the digested dict, put in order
sorted-eq :
    (agent tool operation arguments resource version schema manifest approval state : Json)
    → sort_fields (
        field "agent_name" agent (
          field "tool_name" tool (
            field "operation" operation (
              field "arguments" arguments (
                field "resource" resource (
                  field "tool_version" version (
                    field "schema_hash" schema (
                      field "manifest_hash" manifest
                        (field "approval_id" approval (field "approval_state" state end))))))))))
      ≡ field "agent_name" (sort_keys agent) (
          field "approval_id" (sort_keys approval) (
            field "approval_state" (sort_keys state) (
              field "arguments" (sort_keys arguments) (
                field "manifest_hash" (sort_keys manifest) (
                  field "operation" (sort_keys operation) (
                    field "resource" (sort_keys resource) (
                      field "schema_hash" (sort_keys schema) (
                        field "tool_name"
                          (sort_keys tool)
                          (field "tool_version" (sort_keys version) end)))))))))
unfolding sort_fields insert_sorted
sorted-eq agent tool operation arguments resource version schema manifest approval state = refl

module _ (H : Hashing) (b : Settings) (a : AuthorizeCall) where
  binding-eq :
      sort_keys (binding (frozen_call b a))
      ≡ canonical_call b.agent_name a (sort_fields a.arguments)
  unfolding binding sort_keys
  binding-eq = ap object (
      sorted-eq (string b.agent_name) (string a.tool_name) (optional a.operation)
        (object a.arguments) (optional a.resource) (optional a.tool_version)
        (optional a.schema_hash) (optional a.manifest_hash) (optional a.approval_id)
        (optional a.approval_state)
      ∙ cc (
        optional-eq a.operation,
        optional-eq a.resource,
        optional-eq a.tool_version,
        optional-eq a.schema_hash,
        optional-eq a.manifest_hash,
        optional-eq a.approval_id,
        optional-eq a.approval_state,
      ))

  digest-eq :
      call_digest H (frozen_call b a)
      ≡ H.sha256 (H.dumps (canonical_call b.agent_name a (sort_fields a.arguments)))
  unfolding call_digest canonicalize
  digest-eq = ap (λ v. H.sha256 (H.dumps v)) binding-eq

  pub authorization-Bound :
      (m : AuthorizeMoment) (grant : Option ProviderGrant)
      → Bound H b a (authorization a m (shown_call H b a) b grant)
  unfolding freeze_with_digest
  authorization-Bound m grant = record {
    agent_name = refl;
    tool_name = refl;
    operation = refl;
    arguments = refl;
    resource = refl;
    tool_version = refl;
    schema_hash = refl;
    manifest_hash = refl;
    approval_id = refl;
    approval_state = refl;
    sorted = sort_fields a.arguments;
    rearranged = sort_fields-Rearranged a.arguments;
    digest = digest-eq;
    decision = refl;
    decided_agent = refl;
    decided_tool = refl;
    decided_operation = refl;
    unreasoned = refl;
  }

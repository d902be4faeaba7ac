-- ===== src/Integrations/AgentKey/Recording.antt =====
-- `AgentKeyProvider.record` of src/toolboundary/integrations/agentkey.py, and the provider.
use toolboundary.Common.{ℕ, suc, String, Bool, true, false, Option, none, some, [], ◌∷◌}
use toolboundary.Common.Dict.{Dict, lookup, erase}
use toolboundary.Exceptions.{truthy}
use toolboundary.Audit.{MetaValue, text}
use toolboundary.Json.{end}
use toolboundary.Provider.{
  FrozenToolCall, ProviderGrant, ExecutionRecord, ProviderReceipt, Attempt, returns, raises,
  EvidenceProvider,
}
use toolboundary.Integrations.AgentKey.{
  RecordPayload, RecordResponse, AgentKeyClient, AgentKey, invoke, set_defaults, fresh_id,
  authorize,
}

abbrev pub Pending : Type 0
Pending = Dict (FrozenToolCall × String)

-- `pending.pop(authorization_id, None)`, for an id that is not empty
unfoldable pub pop_event : Option String → Pending → Pending
unfolding erase
pop_event id pending = elim (truthy id) [ none ↦ pending | some i ↦ erase i pending ]

-- `id in pending` and `pending.pop(id)`, for an id that is not empty
unfoldable pub find_pending : Option String → Pending → Option ((FrozenToolCall × String) × String)
unfolding lookup
find_pending id pending = elim (truthy id) [
  | none ↦ none
  | some i ↦ elim (lookup i pending) [ none ↦ none | some stored ↦ some (stored, i) ]
]

-- what `record` finds of the call, and leaves of the pending ones
unfoldable pub take_pending : ProviderGrant → Pending → Option (FrozenToolCall × String) × Pending
unfolding pop_event find_pending erase
take_pending grant pending = elim (find_pending grant.attempt_id pending) [
  | some (stored, i) ↦ (some stored, pop_event grant.authorization_id (erase i pending))
  | none ↦ elim (find_pending grant.authorization_id pending) [
    | some (stored, i) ↦ (some stored, erase i pending)
    | none ↦ (none, pending)
  ]
]

-- `sess_id`: of the pending call, else of the grant, else the provider's own
unfoldable pub session_of : Option (FrozenToolCall × String) → ProviderGrant → String → MetaValue
unfolding lookup
session_of (some (call, session)) grant own = text session
session_of none grant own = elim (lookup "session_id" grant.metadata) [
  | none ↦ text own
  | some session ↦ session
]

unfoldable pub record_payload :
    Option (FrozenToolCall × String) → MetaValue → ProviderGrant → ExecutionRecord → RecordPayload
record_payload (some (call, own)) session grant execution = record {
  session_id = session;
  authorization_event_id = grant.authorization_id;
  attempt_id = grant.attempt_id;
  tool = some call.tool_name;
  action = call.operation;
  resource = call.resource;
  arguments = call.arguments;
  execution = execution;
}
record_payload none session grant execution = record {
  session_id = session;
  authorization_event_id = grant.authorization_id;
  attempt_id = grant.attempt_id;
  tool = none;
  action = none;
  resource = none;
  arguments = end;
  execution = execution;
}

-- `evidence_recorded`, where it is missing `recorded`, and where that is missing too True
abbrev pub recorded_flag : RecordResponse → Bool
recorded_flag r = elim r.evidence_recorded [
  | some b ↦ b
  | none ↦ elim r.recorded [ some b ↦ b | none ↦ true ]
]

-- `a or b`
abbrev pub first_truthy : Option String → Option String → Option String
first_truthy a b = elim (truthy a) [ none ↦ b | some x ↦ some x ]

unfoldable pub receipt_of : MetaValue → Attempt RecordResponse → ProviderReceipt
unfolding set_defaults
receipt_of session (returns r) = record {
  recorded = recorded_flag r;
  provider = "agentkey";
  evidence_id = first_truthy r.event_id r.evidence_id;
  signature = none;
  metadata = set_defaults r.metadata (("session_id", session) ∷ []);
}
receipt_of session (raises e) = record {
  recorded = false;
  provider = "agentkey";
  evidence_id = none;
  signature = none;
  metadata = ("error", text e) ∷ ("session_id", session) ∷ [];
}

module _ (C : AgentKeyClient) (digits : ℕ → String) where
  -- the receipt of the demo mode, where there is no client with the method
  unfoldable pub demo_receipt : MetaValue → ℕ → ProviderReceipt
  unfolding fresh_id
  demo_receipt session n = record {
    recorded = true;
    provider = "agentkey";
    evidence_id = some (fresh_id "ak-rec-" (digits n));
    signature = none;
    metadata = ("session_id", session) ∷ [];
  }

  -- the payload is sent with what was pending; an exception of the client is a receipt too
  unfoldable pub send :
      MetaValue → RecordPayload → AgentKey C digits → ProviderReceipt × AgentKey C digits
  unfolding invoke receipt_of demo_receipt
  send session payload s = elim s.client [
    | none ↦ (demo_receipt session s.draws, record s { draws = suc s.draws })
    | some c ↦ elim C.record_execution [
      | none ↦ (demo_receipt session s.draws, record s { draws = suc s.draws })
      | some m ↦
          let (answer, c') = invoke m payload c in
          (receipt_of session answer, record s { client = some c' })
    ]
  ]

  unfoldable pub record_execution :
      ProviderGrant
      → ExecutionRecord
      → AgentKey C digits
      → Attempt ProviderReceipt × AgentKey C digits
  unfolding take_pending session_of record_payload send
  record_execution grant execution s =
      let (stored, pending) = take_pending grant s.pending_calls in
      let session = session_of stored grant s.session_id in
      let (receipt, s') =
        send session (record_payload stored session grant execution)
          (record s { pending_calls = pending }) in
      (returns receipt, s')

  abbrev pub agentkey_provider : EvidenceProvider
  agentkey_provider = record {
    State = AgentKey C digits;
    authorize = authorize C digits;
    record_execution = record_execution;
  }

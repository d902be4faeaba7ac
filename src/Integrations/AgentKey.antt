-- ===== src/Integrations/AgentKey.antt =====
-- src/toolboundary/integrations/agentkey.py: `AgentKeyProvider`, a provider over a client of an
-- external service. The client is not code of the repository: its methods are parameters, and its
-- answers are seen as far as `_get_val` reads them. What is written to the log is not modelled.
pub mod Recording
pub mod Entries
pub mod Correlation
use Prim.Native.String.{◌++◌}
use toolboundary.Common.{
  ℕ, suc, String, Bool, true, false, Option, none, some, List, [], ◌∷◌, if◌then◌else◌,
}
use toolboundary.Common.Dict.{Dict, lookup, contains, insert, erase}
use toolboundary.Exceptions.{truthy}
use toolboundary.Audit.{MetaValue, text, flag, Metadata}
use toolboundary.Json.{Fields, end}
use toolboundary.Provider.{
  FrozenToolCall, LocalDecision, ProviderGrant, ExecutionStatus, ExecutionRecord, ProviderReceipt,
  Attempt, returns, raises, EvidenceProvider,
}

-- `auth_payload`
pub record AuthPayload : Type 0 where
  pub session_id : String
  pub tool : String
  pub action : Option String
  pub resource : Option String
  pub arguments : Fields
  pub metadata : Metadata

-- `record_payload`, without the fields that it copies from the execution record
pub record RecordPayload : Type 0 where
  pub session_id : MetaValue
  pub authorization_event_id : Option String
  pub attempt_id : Option String
  pub tool : Option String
  pub action : Option String
  pub resource : Option String
  pub arguments : Fields
  pub execution : ExecutionRecord

-- the answers; `allowed` and `approval_required` by their truth value, false where they are
-- missing, and `metadata` where it is a dict
pub record AuthResponse : Type 0 where
  pub event_id : Option String
  pub attempt_id : Option String
  pub allowed : Bool
  pub reason : Option String
  pub approval_required : Bool
  pub approval_id : Option String
  pub metadata : Metadata

pub record RecordResponse : Type 0 where
  pub evidence_recorded : Option Bool
  pub recorded : Option Bool
  pub event_id : Option String
  pub evidence_id : Option String
  pub metadata : Metadata

-- how a call of the client ends: a TypeError and another exception are told apart
pub data Called (A : Type 0) : Type 0 where
  answers : A → Called A
  type_error fails : String → Called A

-- a method that takes its payload as one dict, or as keyword arguments
pub record Method (S A B : Type 0) : Type 0 where
  pub with_dict : A → S → Called B × S
  pub with_keywords : A → S → Called B × S

-- the client object, whose methods may be missing
pub record AgentKeyClient : Type 1 where
  pub State : Type 0
  pub authorize : Option (Method State AuthPayload AuthResponse)
  pub record_execution : Option (Method State RecordPayload RecordResponse)

unfoldable pub attempt_of : {A : Type 0} → Called A → Attempt A
attempt_of (answers a) = returns a
attempt_of (type_error e) = raises e
attempt_of (fails e) = raises e

-- `try: client.m(payload)`, `except TypeError: client.m(**payload)`
unfoldable pub invoke : {S A B : Type 0} → Method S A B → A → S → Attempt B × S
unfolding attempt_of
invoke m payload s =
    let (answer, s') = m.with_dict payload s in
    elim answer [
      | answers a ↦ (returns a, s')
      | type_error e ↦ (attempt_of (m.with_keywords payload s').0, (m.with_keywords payload s').1)
      | fails e ↦ (raises e, s')
    ]

-- `d[k] = v` for an optional value
abbrev pub put_some : String → Option String → Metadata → Metadata
put_some k none d = d
put_some k (some v) d = insert k (text v) d

-- `metadata` of the payload
unfoldable pub linkage : FrozenToolCall → LocalDecision → Metadata
unfolding insert
linkage call local = put_some "manifest_hash" call.manifest_hash (
    put_some "schema_hash" call.schema_hash (
      put_some "toolboundary_policy_version" local.policy_version (
        ("toolboundary_call_digest", text call.call_digest)
        ∷ ("toolboundary_decision_id", text local.decision_id)
        ∷ [])))

-- `for k, v in new.items(): d.setdefault(k, v)`
unfoldable pub set_defaults : Metadata → Metadata → Metadata
unfolding contains insert
set_defaults d [] = d
set_defaults d ((k, v) ∷ new) = set_defaults (if contains k d then d else insert k v d) new

-- a fresh id: the prefix and twelve digits of a uuid
unfoldable pub fresh_id : String → String → String
fresh_id prefix digits = prefix ++ digits

-- `_get_val(res, key) or f"{prefix}{…}"`
unfoldable pub id_or : Option String → String → String
id_or given fallback = elim (truthy given) [ none ↦ fallback | some i ↦ i ]

-- `digits` are the uuids that are drawn one after the other
module _ (C : AgentKeyClient) (digits : ℕ → String) where
  pub record AgentKey : Type 0 where
    pub client : Option C.State
    pub session_id : String
    pub pending_calls : Dict (FrozenToolCall × String)
    pub draws : ℕ

  -- what `authorize` has of the answer, the demo mode's included
  pub record Verdict : Type 0 where
    pub event_id : String
    pub attempt_id : String
    pub response : AuthResponse

  abbrev demo_response : AuthResponse
  demo_response = record {
    event_id = none;
    attempt_id = none;
    allowed = true;
    reason = some "Authorized by AgentKey (demo)";
    approval_required = false;
    approval_id = none;
    metadata = [];
  }

  -- the next two uuids are set aside for the ids, of which a client may have its own
  unfoldable pub verdict_of : ℕ → AuthResponse → Verdict
  unfolding fresh_id id_or
  verdict_of n r = record {
    event_id = id_or r.event_id (fresh_id "ak-evt-" (digits n));
    attempt_id = id_or r.attempt_id (fresh_id "ak-att-" (digits (suc n)));
    response = r;
  }

  unfoldable pub auth_payload : FrozenToolCall → LocalDecision → AgentKey → AuthPayload
  unfolding linkage
  auth_payload call local s = record {
    session_id = s.session_id;
    tool = call.tool_name;
    action = call.operation;
    resource = call.resource;
    arguments = call.arguments;
    metadata = linkage call local;
  }

  -- the client's answer, or that of the demo mode where there is no client with the method
  unfoldable pub ask : FrozenToolCall → LocalDecision → AgentKey → Attempt AuthResponse × AgentKey
  unfolding auth_payload invoke
  ask call local s = elim s.client [
    | none ↦ (returns demo_response, s)
    | some c ↦ elim C.authorize [
      | none ↦ (returns demo_response, s)
      | some m ↦
          let (answer, c') = invoke m (auth_payload call local s) c in
          (answer, record s { client = some c' })
    ]
  ]

  unfoldable pub grant_of : String → Verdict → ProviderGrant
  unfolding set_defaults
  grant_of session v = record {
    allowed = v.response.allowed;
    provider = "agentkey";
    authorization_id = some v.event_id;
    attempt_id = some v.attempt_id;
    expires_at = none;
    reason = v.response.reason;
    metadata =
        set_defaults
          (put_some "approval_id" v.response.approval_id (
            if v.response.approval_required
            then insert "approval_required" (flag true) (("session_id", text session) ∷ [])
            else ("session_id", text session) ∷ []))
          v.response.metadata;
  }

  unfoldable pub authorize :
      FrozenToolCall → LocalDecision → AgentKey → Attempt (Option ProviderGrant) × AgentKey
  unfolding ask verdict_of grant_of insert
  authorize call local s =
      let (answer, s') = ask call local s in
      elim answer [
        | raises e ↦ (raises e, s')
        | returns r ↦
            let v = verdict_of s.draws r in
            (
              returns (some (grant_of s.session_id v)),
              record s' {
                pending_calls =
                    insert v.event_id (call, s.session_id)
                      (insert v.attempt_id (call, s.session_id) s'.pending_calls);
                draws = suc (suc s.draws);
              },
            )
      ]

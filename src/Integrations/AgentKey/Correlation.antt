-- ===== src/Integrations/AgentKey/Correlation.antt =====
-- That `AgentKeyProvider.record` finds the call that `authorize` kept.
use toolboundary.Common.{
  ℕ, suc, ◌≡◌, refl, sym, ap, ◌∙◌, ◌⊎◌, inl, inr, String, Bool, false, Option, none, some, ◌==◌,
  if◌then◌else◌, Option-cases,
}
use toolboundary.Common.Dict.{lookup, insert, erase}
use toolboundary.Audit.{text}
use toolboundary.Provider.{
  FrozenToolCall, LocalDecision, ProviderGrant, ExecutionRecord, ProviderReceipt, Attempt, returns,
  raises,
}
use toolboundary.Integrations.AgentKey.{
  RecordPayload, AgentKeyClient, AgentKey, AuthResponse, verdict_of, ask, grant_of, authorize,
}
use toolboundary.Integrations.AgentKey.Recording.{
  Pending, session_of, record_payload, send, record_execution,
}
use toolboundary.Integrations.AgentKey.Entries.{
  IsText, IsText-append, id_or-IsText, taken, taken-others, told, invoke-told,
}

Attempt-cases :
    {A : Type 0} (r : Attempt A) → ((a : A) × (r ≡ returns a)) ⊎ ((e : String) × (r ≡ raises e))
Attempt-cases (returns a) = inl (a, refl)
Attempt-cases (raises e) = inr (e, refl)

-- the grant's own ids
abbrev pub names_id : Option String → String → Bool
names_id none id = false
names_id (some i) id = i == id

module _ (C : AgentKeyClient) (digits : ℕ → String) (call : FrozenToolCall) (local : LocalDecision)
    (s : AgentKey C digits) where
  ask-pending : (ask C digits call local s).1.pending_calls ≡ s.pending_calls
  unfolding ask
  ask-pending = elim (Option-cases s.client) [
    | inl absent ↦ rw (absent, ask) refl
    | inr (c, present) ↦ elim (Option-cases C.authorize) [
      | inl missing ↦ rw (present, missing, ask) refl
      | inr (m, method) ↦ rw (present, method, ask) refl
    ]
  ]

  abbrev after_authorize : AgentKey C digits
  after_authorize = (authorize C digits call local s).1

  -- what the client is to be sent: the session, the ids of the grant, each field of the call that
  -- was authorized, and the execution
  abbrev pub rebuilt : ProviderGrant → ExecutionRecord → RecordPayload
  rebuilt grant execution = record {
    session_id = text s.session_id;
    authorization_event_id = grant.authorization_id;
    attempt_id = grant.attempt_id;
    tool = some call.tool_name;
    action = call.operation;
    resource = call.resource;
    arguments = call.arguments;
    execution = execution;
  }

  send-told :
      (payload : RecordPayload) (s' : AgentKey C digits)
      → (send C digits (text s.session_id) payload s').1.client
        ≡ told C.record_execution payload s'.client
  unfolding send
  send-told payload s' = elim (Option-cases s'.client) [
    | inl absent ↦ rw (absent, send) absent
    | inr (c, present) ↦ elim (Option-cases C.record_execution) [
      | inl missing ↦ rw (present, missing, send) present
      | inr (m, method) ↦ rw (present, method, send) (invoke-told m payload c)
    ]
  ]

  -- the receipt and the provider, once the payload has been sent
  abbrev pub sent : ProviderGrant → ExecutionRecord → Pending → ProviderReceipt × AgentKey C digits
  sent grant execution pending =
      send C digits (text s.session_id) (rebuilt grant execution)
        (record after_authorize { pending_calls = pending })

  authorize-answered :
      (r : AuthResponse)
      → (ask C digits call local s).0 ≡ returns r
      → authorize C digits call local s ≡ (
        returns (some (grant_of C digits s.session_id (verdict_of C digits s.draws r))),
        record ((ask C digits call local s).1) {
          pending_calls =
              insert
                (verdict_of C digits s.draws r).event_id
                (call, s.session_id)
                (insert
                  (verdict_of C digits s.draws r).attempt_id
                  (call, s.session_id)
                  (ask C digits call local s).1.pending_calls);
          draws = suc (suc s.draws);
        },
      )
  unfolding authorize
  authorize-answered r answered = rw (answered, authorize) refl

  authorize-grant :
      (grant : ProviderGrant)
      → (authorize C digits call local s).0 ≡ returns (some grant)
      → (event : String) × (attempt : String) × (IsText event)
        × (IsText attempt)
        × (grant.authorization_id ≡ some event)
        × (grant.attempt_id ≡ some attempt)
        × (after_authorize.pending_calls
            ≡ insert event
                (call, s.session_id)
                (insert attempt (call, s.session_id) s.pending_calls))
  unfolding authorize grant_of verdict_of
  authorize-grant grant h = elim (Attempt-cases (ask C digits call local s).0) [
    | inr (e, failed) ↦ absurd (cc (rw (failed, authorize) at h))
    | inl (r, answered) ↦
        let whole = authorize-answered r answered in
        let v = verdict_of C digits s.draws r in
        let same : grant_of C digits s.session_id v ≡ grant = cc (whole, h) in
        (
          v.event_id,
          v.attempt_id,
          id_or-IsText r.event_id _ (IsText-append "ak-evt-" (digits s.draws) refl),
          id_or-IsText r.attempt_id _ (IsText-append "ak-att-" (digits (suc s.draws)) refl),
          ap (λ (g : ProviderGrant). g.authorization_id) (sym same),
          ap (λ (g : ProviderGrant). g.attempt_id) (sym same),
          ap (λ (p : Attempt (Option ProviderGrant) × AgentKey C digits). p.1.pending_calls) whole
              ∙ ap
                  (λ (p : Pending).
                    insert v.event_id (call, s.session_id)
                      (insert v.attempt_id (call, s.session_id) p))
                  ask-pending,
        )
  ]

  -- Whatever client the provider is over, a client that gives no ids, or one whose methods are
  -- missing or raise, included: after `authorize` has returned a grant, `record` of that grant
  -- returns a receipt. The client, if it is there with the method, has been sent one payload: it
  -- has the session and the grant's ids, the tool, the operation, the resource and the arguments of
  -- the very call that was authorized, and the execution record; it is sent as a dict, and once
  -- more as keyword arguments if that raises a TypeError. The pending calls are as they were before
  -- `authorize`, without the grant's ids.
  pub recorded_call_is_rebuilt :
      (grant : ProviderGrant) (execution : ExecutionRecord)
      → (authorize C digits call local s).0 ≡ returns (some grant)
      → (pending : Pending) × (record_execution C digits grant execution after_authorize
          ≡ (returns (sent grant execution pending).0, (sent grant execution pending).1))
        × ((record_execution C digits grant execution after_authorize).1.client
            ≡ told C.record_execution (rebuilt grant execution) after_authorize.client)
        × ((id : String)
            → lookup id pending ≡ (
                if names_id grant.authorization_id id
                then none
                else if names_id grant.attempt_id id
                then none
                else lookup id s.pending_calls))
  unfolding record_execution
  recorded_call_is_rebuilt grant execution h =
      let (event, attempt, full, full', is_event, is_attempt, kept) = authorize-grant grant h in
      let stored : FrozenToolCall × String = (call, s.session_id) in
      let found = taken event attempt full full' stored grant is_event is_attempt s.pending_calls in
      let pending =
        erase event (erase attempt (insert event stored (insert attempt stored s.pending_calls))) in
      let whole : record_execution C digits grant execution after_authorize
          ≡ (returns (sent grant execution pending).0, (sent grant execution pending).1) =
        rw (kept, found, record_execution) (unfold session_of record_payload in refl) in
      (
        pending,
        whole,
        ap (λ (p : Attempt ProviderReceipt × AgentKey C digits). p.1.client) whole
            ∙ send-told (rebuilt grant execution)
                (record after_authorize { pending_calls = pending }),
        λ id.
            rw (is_event, is_attempt)
              (taken-others event attempt full full' stored grant is_event is_attempt
                s.pending_calls id),
      )

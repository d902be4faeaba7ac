-- ===== src/Audit.antt =====
-- src/toolboundary/audit.py: audit events, the sinks, and the trail that hands each event to
-- every sink.
pub mod Sinks
use toolboundary.Common.{ℕ, String, Bool, Option, List, [], ◌∷◌, ◌++◌, map, if◌then◌else◌}
use toolboundary.Common.Dict.{Dict}
use toolboundary.Enums.{AccessMode, DecisionType, ViolationReason}
use toolboundary.Exceptions.{Message}

-- the values of the metadata dicts that the library builds
pub data MetaValue : Type 0 where
  text : String → MetaValue
  optional_text : Option String → MetaValue
  flag : Bool → MetaValue
  texts : Dict String → MetaValue

abbrev pub Metadata : Type 0
Metadata = Dict MetaValue

pub record AuditEvent : Type 0 where
  pub event_id : String
  pub timestamp : ℕ
  pub agent_name : String
  pub tool_name : Option String
  pub operation : Option String
  pub access_mode : Option AccessMode
  pub decision : DecisionType
  pub reason_code : Option ViolationReason
  pub message : Message
  pub correlation_id : Option String
  pub metadata : Metadata

-- Any object with an `emit` method: what it has taken, and the events on which it raises.
pub record Sink : Type 0 where
  pub raises : AuditEvent → Bool
  pub emitted : List AuditEvent

pub record AuditTrail : Type 0 where
  pub sinks : List Sink

unfoldable pub add_sink : Sink → AuditTrail → AuditTrail
add_sink sink trail = record trail { sinks = trail.sinks ++ sink ∷ [] }

-- the body of the loop in `AuditTrail.record`: what the sink raises is logged and dropped
unfoldable pub emit : AuditEvent → Sink → Sink
emit event sink =
    if sink.raises event then sink else record sink { emitted = sink.emitted ++ event ∷ [] }

-- the arguments of `AuditTrail.record`
pub record Entry : Type 0 where
  pub agent_name : String
  pub decision : DecisionType
  pub message : Message
  pub tool_name : Option String
  pub operation : Option String
  pub access_mode : Option AccessMode
  pub reason_code : Option ViolationReason
  pub correlation_id : Option String
  pub metadata : Metadata

-- `uuid.uuid4()` and `time.time()`, as they come out at one call of `AuditTrail.record`
pub record Stamp : Type 0 where
  pub event_id : String
  pub timestamp : ℕ

abbrev pub event_of : Stamp → Entry → AuditEvent
event_of stamp e = record {
  event_id = stamp.event_id;
  timestamp = stamp.timestamp;
  agent_name = e.agent_name;
  tool_name = e.tool_name;
  operation = e.operation;
  access_mode = e.access_mode;
  decision = e.decision;
  reason_code = e.reason_code;
  message = e.message;
  correlation_id = e.correlation_id;
  metadata = e.metadata;
}

-- `AuditTrail.record`: the new trail and the event
unfoldable pub record_event : Stamp → Entry → AuditTrail → AuditEvent × AuditTrail
unfolding emit
record_event stamp e trail =
    let event = event_of stamp e in (event, record trail { sinks = map (emit event) trail.sinks })

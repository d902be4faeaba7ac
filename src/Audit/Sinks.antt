-- ===== src/Audit/Sinks.antt =====
-- The sinks of src/toolboundary/audit.py: the log, the file of JSON lines, and the webhook. A text
-- is the list of its code points. That a file cannot be opened or written is not modelled.
pub mod Reading
use toolboundary.Common.{ℕ, String, List, [], ◌∷◌, ◌++◌}
use toolboundary.Common.Dict.{Dict}
use toolboundary.Enums.{DecisionType}
use toolboundary.Audit.{AuditEvent}
use toolboundary.Provider.{Attempt, returns, raises}

-- logging.WARNING
abbrev pub warning : ℕ
warning = 30

-- `LoggingSink`, with the level of allowed calls
pub record LoggingSink : Type 0 where
  pub level : ℕ

-- `JSONLFileSink`, with what its file holds
pub record JsonlFileSink : Type 0 where
  pub content : List ℕ

pub record WebhookSink : Type 0 where
  pub url : String
  pub timeout : ℕ
  pub headers : Dict String

abbrev pub level_of : LoggingSink → DecisionType → ℕ
level_of sink DecisionType.allow = sink.level
level_of sink _ = warning

-- `to_json` is `json.dumps` of the event's fields
module _ (to_json : AuditEvent → List ℕ) where
  -- on the records that the logger has taken
  unfoldable pub log_emit : LoggingSink → AuditEvent → List (ℕ × List ℕ) → List (ℕ × List ℕ)
  log_emit sink event log = log ++ (level_of sink event.decision, to_json event) ∷ []

  -- two writes at the end of the file
  unfoldable pub file_emit : AuditEvent → JsonlFileSink → JsonlFileSink
  file_emit event sink = record { content = (sink.content ++ to_json event) ++ b'\n' ∷ [] }

  -- `post` sends a request to the network `W`, and may raise, which is swallowed
  unfoldable pub webhook_emit :
      {W : Type 0}
      → (String → ℕ → Dict String → List ℕ → W → Attempt (Unit {0}) × W)
      → WebhookSink
      → AuditEvent
      → W
      → Attempt (Unit {0}) × W
  webhook_emit post sink event w =
      (returns tt, (post sink.url sink.timeout sink.headers (to_json event) w).1)

  -- the events of a trail with one such file, one after the other
  unfoldable pub file_emit_all : List AuditEvent → JsonlFileSink → JsonlFileSink
  unfolding file_emit
  file_emit_all [] sink = sink
  file_emit_all (e ∷ es) sink = file_emit_all es (file_emit e sink)

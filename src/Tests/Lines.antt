-- ===== src/Tests/Lines.antt =====
-- A file of JSON lines that takes two events.
use toolboundary.Common.{ℕ, ◌≡◌, ◌++◌, inl, refl, none, List, [], ◌∷◌, map, arith}
use toolboundary.Audit.{AuditEvent}
use toolboundary.Audit.Sinks.{JsonlFileSink, file_emit_all}
use toolboundary.Audit.Sinks.Reading.{lines, IsOneLine, file_emit_all-lines}
use toolboundary.Enums.{allow}
use toolboundary.Exceptions.{Message}

abbrev event : AuditEvent
event = record {
  event_id = "e1";
  timestamp = 7;
  agent_name = "agent";
  tool_name = none;
  operation = none;
  access_mode = none;
  decision = allow;
  reason_code = none;
  message = Message.plain "ok";
  correlation_id = none;
  metadata = [];
}

abbrev to_json : AuditEvent → List ℕ
to_json e = b'{' ∷ b'}' ∷ []

one_line : (e : AuditEvent) → IsOneLine (to_json e)
one_line e = (λ h. omega (arith, h), (λ h. omega (arith, h), tt))

abbrev new_file : JsonlFileSink
new_file = record { content = [] }

file_emit_all-lines_example :
    lines (file_emit_all to_json (event ∷ event ∷ []) new_file).content
    ≡ lines [] ++ map to_json (event ∷ event ∷ [])
file_emit_all-lines_example =
    file_emit_all-lines to_json one_line (event ∷ event ∷ []) new_file (inl refl)

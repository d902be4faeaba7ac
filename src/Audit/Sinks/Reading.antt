-- ===== src/Audit/Sinks/Reading.antt =====
-- The file of JSON lines, read back line by line.
use toolboundary.Common.{
  ℕ, ◌≡◌, ◌≢◌, refl, sym, ap, ◌∙◌, ◌⊎◌, false, List, [], ◌∷◌, ◌++◌, map, arith, eqb, All,
  if◌then◌else◌, append-nil, append_assoc, Bool-cases, inl, inr,
}
use toolboundary.Audit.{AuditEvent}
use toolboundary.Audit.Sinks.{JsonlFileSink, file_emit, file_emit_all}

-- a character at the front of the first line
abbrev pub push : ℕ → List (List ℕ) → List (List ℕ)
push c [] = (c ∷ []) ∷ []
push c (line ∷ rest) = (c ∷ line) ∷ rest

-- the lines of a text, without their ends
abbrev pub lines : List ℕ → List (List ℕ)
lines [] = []
lines (c ∷ s) = if eqb c b'\n' then [] ∷ lines s else push c (lines s)

abbrev pub IsOneLine : List ℕ → Type 0
IsOneLine = All (λ c. c ≢ b'\n')

-- a text of whole lines: it is empty, or ends with a line's end
abbrev pub IsWhole : List ℕ → Type 0
IsWhole s = (s ≡ []) ⊎ ((t : List ℕ) × (s ≡ t ++ b'\n' ∷ []))

-- what stands before a line's end is some first line and more
module _ (t : List ℕ) where
  abbrev Splits : Type 0
  Splits =
      (first : List ℕ) × (more : List (List ℕ)) × (lines (t ++ b'\n' ∷ []) ≡ first ∷ more)
      × ((rest : List ℕ) → lines (t ++ b'\n' ∷ rest) ≡ (first ∷ more) ++ lines rest)

lines-Splits : (t : List ℕ) → Splits t
lines-Splits [] = ([], [], refl, λ rest. refl)
lines-Splits (c ∷ t) =
    let (first, more, alone, before) = lines-Splits t in
    elim (Bool-cases (eqb c b'\n')) [
      | inl end ↦ ([], first ∷ more, rw (end, alone) refl, λ rest. rw (end, before rest) refl)
      | inr inside ↦
          (c ∷ first, more, rw (inside, alone) refl, λ rest. rw (inside, before rest) refl)
    ]

lines-append : (s rest : List ℕ) → IsWhole s → lines (s ++ rest) ≡ lines s ++ lines rest
lines-append s rest (inl e) = rw e refl
lines-append s rest (inr (t, e)) =
    let (first, more, alone, before) = lines-Splits t in
    rw (e, append_assoc t (b'\n' ∷ []) rest, before rest, alone) refl

lines-one : (line : List ℕ) → IsOneLine line → lines (line ++ b'\n' ∷ []) ≡ line ∷ []
lines-one [] h = refl
lines-one (c ∷ line) h =
    let inside : eqb c b'\n' ≡ false = ground (arith, h.0) in rw (inside, lines-one line h.1) refl

module _ (to_json : AuditEvent → List ℕ) (one_line : (e : AuditEvent) → IsOneLine (to_json e)) where
  -- A file of whole lines, to which the sink has written any number of events, where the JSON text
  -- of an event has no line's end in it: read line by line it has the lines that it had, and then
  -- one for each event, its JSON text, in the order in which the events came.
  pub file_emit_all-lines :
      (es : List AuditEvent) (sink : JsonlFileSink)
      → IsWhole sink.content
      → lines (file_emit_all to_json es sink).content ≡ lines sink.content ++ map to_json es
  unfolding file_emit_all file_emit
  file_emit_all-lines [] sink whole = sym (append-nil (lines sink.content))
  file_emit_all-lines (e ∷ es) sink whole =
      let rest = file_emit_all-lines es (file_emit to_json e sink) (inr (_, refl)) in
      let written =
        lines-append sink.content (to_json e ++ b'\n' ∷ []) whole
        ∙ ap (λ ls. lines sink.content ++ ls) (lines-one (to_json e) (one_line e)) in
      rest
      ∙ ap (λ ls. ls ++ map to_json es)
          (ap lines (append_assoc sink.content (to_json e) (b'\n' ∷ [])) ∙ written)
      ∙ append_assoc (lines sink.content) (to_json e ∷ []) (map to_json es)

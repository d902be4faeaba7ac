-- ===== src/Redact/Hiding.antt =====
-- What the audit metadata of a call does not depend on.
use toolboundary.Common.{
  ℕ, ◌≡◌, ◌||◌, refl, String, Bool, true, false, List, [], ◌∷◌, ap, inl, inr, Bool-cases,
}
use toolboundary.Common.Dict.{Dict}
use toolboundary.Common.Text.{member}
use toolboundary.Redact.{Shown, is_sensitive, redact_arg, redact_args}

-- the name is among the extra ones, or holds a word of the pattern
abbrev pub is_hidden : List String → String → Bool
is_hidden extra_names name = member name extra_names || is_sensitive name

-- the same arguments, but for the values under hidden names
abbrev pub SameButHidden : List String → Dict Shown → Dict Shown → Type 0
SameButHidden extra [] [] = Unit
SameButHidden extra ((name, v) ∷ d) ((name', v') ∷ d') =
    (name ≡ name') × (is_hidden extra name ≡ false → v ≡ v') × SameButHidden extra d d'
SameButHidden extra _ _ = ⊥

redact_arg-hidden :
    (extra : List String) (max_len : ℕ) (log_values : Bool) (name : String) (v : Shown)
    → is_hidden extra name ≡ true
    → redact_arg extra max_len log_values name v ≡ "<redacted>"
unfolding redact_arg
redact_arg-hidden extra max_len log_values name v h = rw h

redact_arg-same :
    (extra : List String) (max_len : ℕ) (log_values : Bool) (name : String) (v v' : Shown)
    → (is_hidden extra name ≡ false → v ≡ v')
    → redact_arg extra max_len log_values name v ≡ redact_arg extra max_len log_values name v'
redact_arg-same extra max_len log_values name v v' same = elim (Bool-cases (is_hidden extra name)) [
  | inl hidden ↦ cc (
    redact_arg-hidden extra max_len log_values name v hidden,
    redact_arg-hidden extra max_len log_values name v' hidden,
  )
  | inr open_name ↦ ap (redact_arg extra max_len log_values name) (same open_name)
]

-- `redact_args` shows nothing of the values under hidden names, those among the extra names and
-- those in which the pattern is found: two dicts of arguments with the same names in the same order
-- that differ only in such values are redacted to the same dict.
pub redact_args-hides :
    (extra : List String) (max_len : ℕ) (log_values : Bool) (d d' : Dict Shown)
    → SameButHidden extra d d'
    → redact_args extra max_len log_values d ≡ redact_args extra max_len log_values d'
unfolding redact_args
redact_args-hides extra max_len log_values [] [] h = refl
redact_args-hides extra max_len log_values [] (x ∷ d') h = absurd h
redact_args-hides extra max_len log_values (x ∷ d) [] h = absurd h
redact_args-hides extra max_len log_values ((name, v) ∷ d) ((name', v') ∷ d') h = cc (
  h.0,
  redact_arg-same extra max_len log_values name v v' h.1,
  redact_args-hides extra max_len log_values d d' h.2,
)

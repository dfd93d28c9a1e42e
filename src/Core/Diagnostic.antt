-- ===== src/Core/Diagnostic.antt =====
-- diagnostic.go: a reason and a map of details.
use go_benefit.Prelude.{
  Bool, true, false, ℕ, Option, none, some, List, [], ◌∷◌, String, is_nil, nat_eq,
}
use go_benefit.Int64.{ℤ}
use go_benefit.Text.{Text, text_eq}
use go_benefit.Time.{Time}
use go_benefit.Dict.{Dict, insert}
use go_benefit.Errors.{Error}

-- What the packages store in a map[string]any; `opaque` stands for any other value.
pub data Value : Type 0 where
  int : ℤ → Value
  text : Text → Value
  texts : List Text → Value
  time : Time → Value
  opaque : ℕ → Value

-- A reason text. A text that fmt.Sprintf makes of a format with letters, and the text of an
-- error, are kept unformatted: neither is empty.
pub data Reason : Type 0 where
  text : Text → Reason
  sprintf : String → Reason
  error_text : Error → Reason

abbrev pub no_reason : Reason
no_reason = Reason.text []

abbrev pub is_empty : Reason → Bool
is_empty (Reason.text t) = is_nil t
is_empty _ = false

abbrev pub Details : Type 0
Details = Option (Dict Text Value)

pub record Diagnostic : Type 0 where
  pub reason : Reason
  pub details : Details

-- Diagnostic{}
abbrev pub no_diagnostic : Diagnostic
no_diagnostic = record { reason = no_reason; details = none }

-- `len(d.Details) > 0`
abbrev pub has_details : Details → Bool
has_details none = false
has_details (some []) = false
has_details (some (x ∷ xs)) = true

abbrev pub new_diagnostic : Reason → Details → Diagnostic
new_diagnostic reason details = record { reason = reason; details = details }

unfoldable pub add_detail : Text → Value → Diagnostic → Diagnostic
unfolding insert
add_detail key value d = record d {
  details = elim d.details [
    | none ↦ some (insert key value [])
    | some m ↦ some (insert key value m)
  ];
}

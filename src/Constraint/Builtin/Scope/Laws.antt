-- ===== src/Constraint/Builtin/Scope/Laws.antt =====
-- When a scope matches.
use go_benefit.Prelude.{
  ◌≡◌, refl, ◌≢◌, ◌⊎◌, ◌↔◌, true, false, List, [], ◌∷◌, map, All, has, arith, eq_iff,
}
use go_benefit.Text.{Text, text_eq}
use go_benefit.Text.Space.{trim_space}
use go_benefit.Constraint.Builtin.Scope.{
  ScopeMatch, allowed_values, match_all, match_any, match_scope, default_match, is_known_match,
}

-- A value that is not empty and equals an entry of the allow list up to the white space around it.
abbrev pub InScope : List Text → Text → Type 0
InScope entries value = (value ≢ []) × (has (map trim_space entries) value ≡ true)

pub has-allowed_values :
    (entries : List Text) (value : Text)
    → value ≢ []
    → has (allowed_values entries) value ≡ has (map trim_space entries) value
unfolding allowed_values
has-allowed_values [] value h = refl
has-allowed_values (x ∷ entries) value h =
    ground (arith, has-allowed_values entries value h, eq_iff (trim_space x) value)

match_all_iff :
    (values entries : List Text)
    → (match_all values (allowed_values entries) ≡ true) ↔ All (InScope entries) values
unfolding match_all
match_all_iff [] entries = ground arith
match_all_iff (v ∷ values) entries =
    ground (arith, match_all_iff values entries, has-allowed_values entries v)

match_any_iff :
    (values entries : List Text)
    → (match_any values (allowed_values entries) ≡ false) ↔ All (λ v. ¬ InScope entries v) values
unfolding match_any
match_any_iff [] entries = ground arith
match_any_iff (v ∷ values) entries =
    ground (arith, match_any_iff values entries, has-allowed_values entries v)

-- In mode all a scope matches exactly when there is a value and every value is in scope.
pub match_scope-all_iff :
    (values entries : List Text)
    → (match_scope values (allowed_values entries) ScopeMatch.all ≡ true)
      ↔ ((values ≢ []) × All (InScope entries) values)
unfolding match_scope
match_scope-all_iff [] entries = ground arith
match_scope-all_iff (v ∷ values) entries = ground (arith, match_all_iff (v ∷ values) entries)

-- In mode any a scope fails to match exactly when no value is in scope.
pub match_scope-any_iff :
    (values entries : List Text)
    → (match_scope values (allowed_values entries) ScopeMatch.any ≡ false)
      ↔ All (λ v. ¬ InScope entries v) values
unfolding match_scope
match_scope-any_iff [] entries = ground arith
match_scope-any_iff (v ∷ values) entries = ground (arith, match_any_iff (v ∷ values) entries)

-- Some value is in scope.
abbrev pub AnyInScope : List Text → List Text → Type 0
AnyInScope entries [] = ⊥
AnyInScope entries (value ∷ values) = InScope entries value ⊎ AnyInScope entries values

-- What a mode asks of the values; the empty mode is any.
abbrev pub Matches : ScopeMatch → List Text → List Text → Type 0
Matches ScopeMatch.all entries values = (values ≢ []) × All (InScope entries) values
Matches ScopeMatch.any entries values = AnyInScope entries values
Matches ScopeMatch.empty entries values = AnyInScope entries values
Matches (ScopeMatch.other t) entries values = ⊥

match_any-true_iff :
    (values entries : List Text)
    → (match_any values (allowed_values entries) ≡ true) ↔ AnyInScope entries values
unfolding match_any
match_any-true_iff [] entries = ground arith
match_any-true_iff (v ∷ values) entries =
    ground (arith, match_any-true_iff values entries, has-allowed_values entries v)

pub match_scope-Matches_iff :
    (match : ScopeMatch) (values entries : List Text)
    → ((is_known_match (default_match match) ≡ true)
        × (match_scope values (allowed_values entries) (default_match match) ≡ true))
      ↔ Matches match entries values
unfolding match_scope
match_scope-Matches_iff ScopeMatch.all [] entries = ground arith
match_scope-Matches_iff ScopeMatch.all (v ∷ values) entries =
    ground (arith, match_all_iff (v ∷ values) entries)
match_scope-Matches_iff ScopeMatch.any [] entries = ground arith
match_scope-Matches_iff ScopeMatch.any (v ∷ values) entries =
    ground (arith, match_any-true_iff (v ∷ values) entries)
match_scope-Matches_iff ScopeMatch.empty [] entries = ground arith
match_scope-Matches_iff ScopeMatch.empty (v ∷ values) entries =
    ground (arith, match_any-true_iff (v ∷ values) entries)
match_scope-Matches_iff (ScopeMatch.other t) values entries = ground arith

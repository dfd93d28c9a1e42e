-- ===== src/Core/Identifier.antt =====
-- identifier.go: the names of driver and constraint types.
pub mod Grammar
use go_benefit.Prelude.{Bool, true, false, not, ◌&&◌, ◌||◌, [], ◌∷◌, ℕ, leb, ◌==◌, nat_eq, String}
use go_benefit.Text.{Text}
use go_benefit.Text.Fold.{is_lower}
use go_benefit.Errors.{Check, fail_if, validation_error}

-- [a-z0-9]
unfoldable pub is_name_head : ℕ → Bool
unfolding is_lower
is_name_head c = is_lower c || leb b'0' c && leb c b'9'

-- [a-z0-9_-]
unfoldable pub is_name_byte : ℕ → Bool
unfolding is_name_head
is_name_byte c = is_name_head c || c == b'_' || c == b'-'

-- The automaton of ^[a-z0-9][a-z0-9_-]*(\.[a-z0-9][a-z0-9_-]*)+$: whether a dot was read, and
-- whether the part that is being read has begun.
unfoldable pub matches_from : Bool → Bool → Text → Bool
unfolding is_name_byte
matches_from dotted begun [] = dotted && begun
matches_from dotted false (c ∷ t) = is_name_head c && matches_from dotted true t
matches_from dotted true (c ∷ t) =
    (c == b'.' || is_name_byte c) && matches_from (dotted || c == b'.') (not (c == b'.')) t

unfoldable pub is_namespaced : Text → Bool
unfolding matches_from
is_namespaced = matches_from false false

unfoldable pub validate_namespaced_value : Text → Check
unfolding is_namespaced
validate_namespaced_value value =
    fail_if (not (is_namespaced value)) (validation_error "invalid %s %q")

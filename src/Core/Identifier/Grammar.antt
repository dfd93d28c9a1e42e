-- ===== src/Core/Identifier/Grammar.antt =====
-- The automaton of identifier names accepts two or more parts joined by dots.
use go_benefit.Prelude.{
  ◌≡◌, refl, ◌≢◌, ◌↔◌, ◌⊎◌, inl, inr, Bool, true, false, ℕ, List, [], ◌∷◌, ◌++◌, All, arith,
  Bool-cases, ◌==◌, nat_eq, ap,
}
use go_benefit.Text.{Text}
use go_benefit.Core.Identifier.{is_name_head, is_name_byte, matches_from, is_namespaced}

-- A head and any number of name bytes.
abbrev pub IsPart : Text → Type 0
IsPart [] = ⊥
IsPart (c ∷ t) = (is_name_head c ≡ true) × All (λ b. is_name_byte b ≡ true) t

-- The parts after the first, each behind its dot.
abbrev pub dotted : List Text → Text
dotted [] = []
dotted (p ∷ ps) = b'.' ∷ (p ++ dotted ps)

pub record IsName (t : Text) : Type 0 where
  pub first : Text
  pub others : List Text
  pub first_part : IsPart first
  pub other_parts : All IsPart others
  pub several : others ≢ []
  pub joined : t ≡ first ++ dotted others

-- The rest of a text while a part is being read; `seen` says whether a dot was read.
record Rest (seen : Bool) (t : Text) : Type 0 where
  rest : Text
  others : List Text
  letters : All (λ b. is_name_byte b ≡ true) rest
  other_parts : All IsPart others
  enough : seen ≡ false → others ≢ []
  joined : t ≡ rest ++ dotted others

-- The rest of a text where a part must begin.
record Begin (seen : Bool) (t : Text) : Type 0 where
  first : Text
  others : List Text
  first_part : IsPart first
  other_parts : All IsPart others
  enough : seen ≡ false → others ≢ []
  joined : t ≡ first ++ dotted others

abbrev Reads : Bool → Bool → Text → Type 0
Reads seen true t = Rest seen t
Reads seen false t = Begin seen t

read_dot :
    (seen : Bool) (c : ℕ) (t : Text)
    → (c == b'.') ≡ true
    → matches_from seen true (c ∷ t) ≡ true
    → matches_from true false t ≡ true
unfolding matches_from
read_dot seen c t dot h = ground arith

read_byte :
    (seen : Bool) (c : ℕ) (t : Text)
    → (c == b'.') ≡ false
    → matches_from seen true (c ∷ t) ≡ true
    → matches_from seen true t ≡ true
unfolding matches_from
read_byte seen c t byte h = ground arith

reads : (seen begun : Bool) (t : Text) → matches_from seen begun t ≡ true → Reads seen begun t
unfolding matches_from
reads seen true [] h = record {
  rest = [];
  others = [];
  letters = tt;
  other_parts = tt;
  enough = λ e. absurd (ground arith);
  joined = refl;
}
reads seen false [] h = absurd (ground arith)
reads seen false (c ∷ t) h =
    let r = reads seen true t (ground arith) in
    record {
      first = c ∷ r.rest;
      others = r.others;
      first_part = (ground arith, r.letters);
      other_parts = r.other_parts;
      enough = r.enough;
      joined = ap (λ s. c ∷ s) r.joined;
    }
reads seen true (c ∷ t) h = elim (Bool-cases (c == b'.')) [
  | inl dot ↦
      let r = reads true false t (read_dot seen c t dot h) in
      record {
        rest = [];
        others = r.first ∷ r.others;
        letters = tt;
        other_parts = (r.first_part, r.other_parts);
        enough = λ e k. ground arith;
        joined = ground (arith, r.joined);
      }
  | inr byte ↦
      let r = reads seen true t (read_byte seen c t byte h) in
      record {
        rest = c ∷ r.rest;
        others = r.others;
        letters = (ground arith, r.letters);
        other_parts = r.other_parts;
        enough = r.enough;
        joined = ap (λ s. c ∷ s) r.joined;
      }
]

name_byte_head : (c : ℕ) → is_name_head c ≡ true → is_name_byte c ≡ true
unfolding is_name_byte is_name_head
name_byte_head c h = ground arith

-- Reading a part that has begun, and then the others.
accepts_rest :
    (seen : Bool) (rest : Text) (others : List Text)
    → All (λ b. is_name_byte b ≡ true) rest
    → All IsPart others
    → (seen ≡ true) ⊎ (others ≢ [])
    → matches_from seen true (rest ++ dotted others) ≡ true
unfolding matches_from is_name_byte is_name_head
accepts_rest seen (c ∷ rest) others (letter, letters) parts enough =
    ground (arith, accepts_rest seen rest others letters parts enough)
accepts_rest seen [] [] letters parts (inl e) = ground arith
accepts_rest seen [] [] letters parts (inr e) = absurd (e refl)
accepts_rest seen [] ([] ∷ others) letters (part, parts) enough = absurd part
accepts_rest seen [] ((c ∷ p) ∷ others) letters (part, parts) enough =
    ground (arith, accepts_rest true p others part.1 parts (inl refl))

accepts_name :
    (first : Text) (others : List Text)
    → IsPart first
    → All IsPart others
    → others ≢ []
    → matches_from false false (first ++ dotted others) ≡ true
unfolding matches_from
accepts_name [] others part parts several = absurd part
accepts_name (c ∷ p) others (head, letters) parts several =
    ground (arith, accepts_rest false p others letters parts (inr several))

-- The automaton accepts exactly the texts of at least two parts joined by dots, each part a lower-case
-- letter or digit followed by any number of these, underscores and hyphens.
pub is_namespaced_iff : (t : Text) → (is_namespaced t ≡ true) ↔ IsName t
unfolding is_namespaced
is_namespaced_iff t = (
  λ h.
      let b = reads false false t h in
      record {
        first = b.first;
        others = b.others;
        first_part = b.first_part;
        other_parts = b.other_parts;
        several = b.enough refl;
        joined = b.joined;
      },
  λ n. rw n.joined (accepts_name n.first n.others n.first_part n.other_parts n.several),
)

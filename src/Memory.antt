-- ===== src/Memory.antt =====
-- Go's memory as far as pointers and slices share it: one cell for each variable or array.
use go_benefit.Prelude.{
  ℕ, zero, suc, ◌+◌, ◌≤◌, ◌<◌, ◌≡◌, refl, ◌∙◌, List, [], ◌∷◌, length, arith, update,
}

-- The cells from `next` on are not allocated.
pub record Memory {ℓ} (A : Type ℓ) : Type ℓ where
  pub next : ℕ
  pub cell : ℕ → A

module _ {ℓ} {A : Type ℓ} where
  -- A new variable: its address, and the memory with it.
  abbrev pub alloc : A → Memory A → ℕ × Memory A
  alloc a m = (m.next, record m { next = m.next + 1; cell = update m.next a m.cell })

  abbrev pub store : ℕ → A → Memory A → Memory A
  store p a m = record m { cell = update p a m.cell }

  -- Cells are allocated, and none that was allocated before is written.
  pub record Grows (m after : Memory A) : Type ℓ where
    pub next_le : m.next ≤ after.next
    pub same : (p : ℕ) → p < m.next → after.cell p ≡ m.cell p

  pub Grows-refl : (m : Memory A) → Grows m m
  Grows-refl m = record { next_le = omega arith; same = λ p h. refl }

  pub Grows-trans : {m n o : Memory A} → Grows m n → Grows n o → Grows m o
  Grows-trans g h = record {
    next_le = omega (arith, g.next_le, h.next_le);
    same = λ p below. h.same p (omega (arith, g.next_le)) ∙ g.same p below;
  }

  pub alloc-Grows : (a : A) (m : Memory A) → Grows m (alloc a m).1
  alloc-Grows a m = record { next_le = omega arith; same = λ p below. ground arith }

-- A slice is nil, or a part of an array from an offset.
pub data Slice : Type 0 where
  nil : Slice
  part : (array offset count : ℕ) → Slice

module _ {ℓ} {A : Type ℓ} where
  abbrev pub take : ℕ → List A → List A
  take zero xs = []
  take (suc n) [] = []
  take (suc n) (x ∷ xs) = x ∷ take n xs

  abbrev pub drop : ℕ → List A → List A
  drop zero xs = xs
  drop (suc n) [] = []
  drop (suc n) (x ∷ xs) = drop n xs

  -- The elements of a slice, where `arrays` holds those of each array.
  abbrev pub elements : (ℕ → List A) → Slice → List A
  elements arrays nil = []
  elements arrays (part array offset count) = take count (drop offset (arrays array))

  pub take_all : (xs : List A) → take (length xs) xs ≡ xs
  take_all [] = refl
  take_all (x ∷ xs) = cc (take_all xs)

-- The array of a slice satisfies a predicate.
abbrev pub SliceIn {ℓ} : (ℕ → Type ℓ) → Slice → Type ℓ
SliceIn P nil = Unit
SliceIn P (part array offset count) = P array

-- ===== src/Text/Order/Canonical.antt =====
-- Sorting by distinct keys, against the order of the list.
use go_benefit.Prelude.{
  ◌≡◌, refl, inl, inr, true, false, List, [], ◌∷◌, Option, some, none, All, arith, Bool-cases, ◌==◌,
  eq_iff, if◌then◌else◌, ◌∙◌, sym,
}
use go_benefit.Text.{Text, text_eq}
use go_benefit.Text.Order.{text_leb, place, sort_by}
use go_benefit.Text.Order.Laws.{text_leb_total, text_leb_antisymm}

text_leb_refl : (s : Text) → text_leb s s ≡ true
unfolding text_leb
text_leb_refl [] = refl
text_leb_refl (a ∷ s) = ground (arith, text_leb_refl s)

text_leb_trans : (s t u : Text) → text_leb s t ≡ true → text_leb t u ≡ true → text_leb s u ≡ true
unfolding text_leb
text_leb_trans [] t u h k = refl
text_leb_trans (a ∷ s) [] u h k = cc
text_leb_trans (a ∷ s) (b ∷ t) [] h k = cc
text_leb_trans (a ∷ s) (b ∷ t) (c ∷ u) h k = ground (arith, text_leb_trans s t u)

text_leb_strict : (s t : Text) → text_leb s t ≡ true → (t == s) ≡ false → text_leb t s ≡ false
text_leb_strict s t le other = elim (Bool-cases (text_leb t s)) [
  | inl ge ↦ absurd (ground (arith, text_leb_antisymm s t le ge, eq_iff t s))
  | inr gt ↦ gt
]

module _ {ℓ} {A : Type ℓ} (key : A → Text) where
  -- The first element under a key.
  unfoldable pub first_at : Text → List A → Option A
  first_at k [] = none
  first_at k (x ∷ xs) = if key x == k then some x else first_at k xs

  first_at-place :
      (k : Text) (x : A) (ys : List A) → first_at k (place key x ys) ≡ first_at k (x ∷ ys)
  unfolding first_at place
  first_at-place k x [] = refl
  first_at-place k x (y ∷ ys) =
      ground
        (arith, eq_iff (key x) k, eq_iff (key y) k, text_leb_refl (key x), first_at-place k x ys)

  pub first_at-sort_by : (k : Text) (xs : List A) → first_at k (sort_by key xs) ≡ first_at k xs
  unfolding first_at sort_by
  first_at-sort_by k [] = refl
  first_at-sort_by k (x ∷ xs) =
      ground (arith, first_at-place k x (sort_by key xs), first_at-sort_by k xs)

  -- Every key is above k.
  abbrev IsAbove : Text → List A → Type 0
  IsAbove k = All (λ x. text_leb (key x) k ≡ false)

  abbrev pub IsApart : List A → Type 0
  IsApart [] = Unit
  IsApart (x ∷ xs) = All (λ y. (key y == key x) ≡ false) xs × IsApart xs

  abbrev IsAscending : List A → Type 0
  IsAscending [] = Unit
  IsAscending (x ∷ xs) = IsAbove (key x) xs × IsAscending xs

  first_at-above : (k : Text) (xs : List A) → IsAbove k xs → first_at k xs ≡ none
  unfolding first_at
  first_at-above k [] h = refl
  first_at-above k (x ∷ xs) (h, hs) =
      ground (arith, eq_iff (key x) k, text_leb_refl k, first_at-above k xs hs)

  IsAbove-weaken : (j k : Text) (xs : List A) → text_leb j k ≡ true → IsAbove k xs → IsAbove j xs
  IsAbove-weaken j k [] le h = tt
  IsAbove-weaken j k (x ∷ xs) le (h, hs) = (
    elim (Bool-cases (text_leb (key x) j)) [
      | inl below ↦ absurd (ground (arith, text_leb_trans (key x) j k below le))
      | inr above ↦ above
    ],
    IsAbove-weaken j k xs le hs,
  )

  module _ {κ} (P : A → Type κ) where
    All-place : (x : A) (ys : List A) → P x → All P ys → All P (place key x ys)
    unfolding place
    All-place x [] h hs = (h, tt)
    All-place x (y ∷ ys) h (k, ks) = elim (Bool-cases (text_leb (key x) (key y))) [
      | inl before ↦ rw before (h, (k, ks))
      | inr after ↦ rw after (k, All-place x ys h ks)
    ]

    All-sort_by : (xs : List A) → All P xs → All P (sort_by key xs)
    unfolding sort_by
    All-sort_by [] h = tt
    All-sort_by (x ∷ xs) (h, hs) = All-place x (sort_by key xs) h (All-sort_by xs hs)

  place-IsAscending :
      (x : A) (ys : List A)
      → All (λ y. (key y == key x) ≡ false) ys
      → IsAscending ys
      → IsAscending (place key x ys)
  unfolding place
  place-IsAscending x [] apart h = (tt, tt)
  place-IsAscending x (y ∷ ys) (other, apart) (above, h) =
      elim (Bool-cases (text_leb (key x) (key y))) [
        | inl before ↦ rw before (
          (
            text_leb_strict (key x) (key y) before other,
            IsAbove-weaken (key x) (key y) ys before above,
          ),
          (above, h),
        )
        | inr after ↦ rw after (
          All-place (λ z. text_leb (key z) (key y) ≡ false) x ys after above,
          place-IsAscending x ys apart h,
        )
      ]

  sort_by-IsAscending : (xs : List A) → IsApart xs → IsAscending (sort_by key xs)
  unfolding sort_by
  sort_by-IsAscending [] h = tt
  sort_by-IsAscending (x ∷ xs) (apart, h) =
      place-IsAscending x (sort_by key xs) (All-sort_by (λ y. (key y == key x) ≡ false) xs apart)
        (sort_by-IsAscending xs h)

  -- A first element whose key is below that of another list is not found there.
  first_at-missed :
      (x y : A) (ys : List A)
      → IsAbove (key y) ys
      → text_leb (key x) (key y) ≡ true
      → (key y == key x) ≡ false
      → first_at (key x) (y ∷ ys) ≡ none
  first_at-missed x y ys above le other =
      first_at-above (key x) (y ∷ ys)
        (text_leb_strict (key x) (key y) le other, IsAbove-weaken (key x) (key y) ys le above)

  heads_agree :
      (x y : A) (xs ys : List A)
      → IsAbove (key x) xs
      → IsAbove (key y) ys
      → ((k : Text) → first_at k (x ∷ xs) ≡ first_at k (y ∷ ys))
      → x ≡ y
  unfolding first_at
  heads_agree x y xs ys above_x above_y same = elim (Bool-cases (key y == key x)) [
    | inl one ↦ ground (arith, same (key x), eq_iff (key x) (key x), eq_iff (key y) (key x))
    | inr other ↦ elim (Bool-cases (text_leb (key x) (key y))) [
      | inl le ↦ absurd (
          ground
            (arith, same (key x), eq_iff (key x) (key x), first_at-missed x y ys above_y le other))
      | inr gt ↦ absurd (
          ground (
            arith,
            same (key y),
            eq_iff (key y) (key y),
            eq_iff (key x) (key y),
            eq_iff (key y) (key x),
            first_at-missed y x xs above_x (text_leb_total (key x) (key y) gt),
          ))
    ]
  ]

  tails_agree :
      (x : A) (xs ys : List A)
      → IsAbove (key x) xs
      → IsAbove (key x) ys
      → ((k : Text) → first_at k (x ∷ xs) ≡ first_at k (x ∷ ys))
      → (k : Text) → first_at k xs ≡ first_at k ys
  unfolding first_at
  tails_agree x xs ys above_x above_y same k = elim (Bool-cases (key x == k)) [
    | inl here ↦
        let e : key x ≡ k = (eq_iff (key x) k).0 here in
        rw (← e) (first_at-above (key x) xs above_x ∙ sym (first_at-above (key x) ys above_y))
    | inr past ↦ ground (arith, same k)
  ]

  IsAscending-unique :
      (xs ys : List A)
      → IsAscending xs
      → IsAscending ys
      → ((k : Text) → first_at k xs ≡ first_at k ys)
      → xs ≡ ys
  unfolding first_at
  IsAscending-unique [] [] h k same = refl
  IsAscending-unique [] (y ∷ ys) h k same =
      absurd (ground (arith, same (key y), eq_iff (key y) (key y)))
  IsAscending-unique (x ∷ xs) [] h k same =
      absurd (ground (arith, same (key x), eq_iff (key x) (key x)))
  IsAscending-unique (x ∷ xs) (y ∷ ys) (above_x, h) (above_y, k) same =
      let e = heads_agree x y xs ys above_x above_y same in
      let above : IsAbove (key x) ys = rw e above_y in
      let same_x : (k : Text) → first_at k (x ∷ xs) ≡ first_at k (x ∷ ys) =
        λ k. rw e (rw e at same k) in
      cc (e, IsAscending-unique xs ys h k (tails_agree x xs ys above_x above same_x))

  -- Two lists, each with distinct keys, are sorted into the same list where the same elements stand under
  -- the same keys.
  pub sort_by_unique :
      (xs ys : List A)
      → IsApart xs
      → IsApart ys
      → ((k : Text) → first_at k xs ≡ first_at k ys)
      → sort_by key xs ≡ sort_by key ys
  sort_by_unique xs ys h k same =
      IsAscending-unique (sort_by key xs) (sort_by key ys) (sort_by-IsAscending xs h)
        (sort_by-IsAscending ys k)
        (λ t. first_at-sort_by t xs ∙ same t ∙ sym (first_at-sort_by t ys))

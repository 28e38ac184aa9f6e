-- ===== src/Expirator/Keys.antt =====
-- The elements of an expirator that one key owns, and what the timer hands over for it.
use smppgw.Base.{
  ℕ, ◌≡◌, ◌≢◌, refl, ap, sym, ◌∙◌, false, List, [], ◌∷◌, none, some, map, ◌==◌, if◌then◌else◌,
  arith, Bool-cases, inl, inr,
}
use smppgw.Expirator.{Entry, find_key, erase_right, equal_range, erase_left, handed}

module _ {A : Type 0} where
  -- The elements with a key, and the infos that are handed over for it.
  unfoldable pub of_key : ℕ → List (Entry A) → List (Entry A)
  of_key k [] = []
  of_key k (e ∷ es) = let rest = of_key k es in if e.key == k then e ∷ rest else rest

  unfoldable pub handed_for : ℕ → List (ℕ × A) → List A
  handed_for k [] = []
  handed_for k (p ∷ ps) = let rest = handed_for k ps in if p.0 == k then p.1 ∷ rest else rest

  pub find_key-of_key : (k : ℕ) (es : List (Entry A)) → find_key k (of_key k es) ≡ find_key k es
  unfolding find_key of_key
  find_key-of_key k [] = refl
  find_key-of_key k (e ∷ es) = elim (Bool-cases (e.key == k)) [
    | inl same ↦ rw (same, same) refl
    | inr other ↦ rw (other) (find_key-of_key k es)
  ]

  pub of_key-none : (k : ℕ) (es : List (Entry A)) → find_key k es ≡ none → of_key k es ≡ []
  unfolding find_key of_key
  of_key-none k [] h = refl
  of_key-none k (e ∷ es) h = elim (Bool-cases (e.key == k)) [
    | inl same ↦ let found = sym (ap (λ b. if b then some e.info else find_key k es) same) ∙ h in cc
    | inr other ↦
        rw other
          (of_key-none k es (sym (ap (λ b. if b then some e.info else find_key k es) other) ∙ h))
  ]

  -- Another key's call changes nothing for the key.
  pub of_key-erase_right :
      (k j : ℕ) (es : List (Entry A)) → j ≢ k → of_key k (erase_right j es) ≡ of_key k es
  unfolding erase_right of_key
  of_key-erase_right k j [] h = refl
  of_key-erase_right k j (e ∷ es) h = elim (Bool-cases (e.key == j)) [
    | inl same ↦
        let other : (e.key == k) ≡ false = ground (arith, same, h) in
        rw (same, other) (of_key-erase_right k j es h)
    | inr differ ↦ rw (differ, of_key-erase_right k j es h) refl
  ]

  pub of_key-erase_left :
      (k i : ℕ) (es : List (Entry A)) → of_key k (erase_left i es) ≡ erase_left i (of_key k es)
  unfolding erase_left of_key
  of_key-erase_left k i [] = refl
  of_key-erase_left k i (e ∷ es) = elim (Bool-cases (e.due == i)) [
    | inl gone ↦ elim (Bool-cases (e.key == k)) [
      | inl same ↦ rw (gone, same, gone, of_key-erase_left k i es) refl
      | inr other ↦ rw (gone, other, of_key-erase_left k i es) refl
    ]
    | inr stays ↦ elim (Bool-cases (e.key == k)) [
      | inl same ↦ rw (stays, same, stays, of_key-erase_left k i es) refl
      | inr other ↦ rw (stays, other, of_key-erase_left k i es) refl
    ]
  ]

  pub handed_for-equal_range :
      (k i : ℕ) (es : List (Entry A))
      → handed_for k (handed (equal_range i es)) ≡ map (λ e. e.info) (equal_range i (of_key k es))
  unfolding equal_range of_key handed_for
  handed_for-equal_range k i [] = refl
  handed_for-equal_range k i (e ∷ es) = elim (Bool-cases (e.due == i)) [
    | inl now ↦ elim (Bool-cases (e.key == k)) [
      | inl same ↦ rw (now, same, now, handed_for-equal_range k i es) refl
      | inr other ↦ rw (now, other, handed_for-equal_range k i es) refl
    ]
    | inr later ↦ elim (Bool-cases (e.key == k)) [
      | inl same ↦ rw (later, same, later, handed_for-equal_range k i es) refl
      | inr other ↦ rw (later, other, handed_for-equal_range k i es) refl
    ]
  ]

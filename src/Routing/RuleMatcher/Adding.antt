-- ===== src/Routing/RuleMatcher/Adding.antt =====
-- `set_rule` makes the bits of its fields selected where a text of the field matches.
use smppgw.Base.{
  ℕ, suc, ◌+◌, ◌<◌, ◌≤◌, ◌^◌, ◌%◌, ◌≡◌, refl, ap₂, ◌∙◌, Bool, true, false, ◌&&◌, ◌||◌, List, [],
  ◌∷◌, Option, none, ◌==◌, if◌then◌else◌, arith, Bool-cases, Option-cases, inl, inr, ◌⊎◌, length,
  take, get_or, ◌-◌,
}
use smppgw.Base.Results.{Exception}
use smppgw.Smpp.Byte.{Bytes}
use smppgw.Routing.Trie.{Trie, Node, EntryType, prefix, complete, add_entry, add_pattern}
use smppgw.Routing.Trie.Matching.{IsTrie, selects, accepted, selects-add_entry}
use smppgw.Routing.RuleMatcher.{has_upper, add_texts, add_fields}

-- Whether a text of a rule is one for a field: a '*' at the end stands for any rest.
unfoldable pub pattern_matches : Bytes → Bytes → Bool
pattern_matches w q =
    if get_or w (length w - 1) 0 == 0x2A
    then accepted prefix (take (length w - 1) w) q
    else accepted complete w q

unfoldable pub any_matches : List Bytes → Bytes → Bool
any_matches [] q = false
any_matches (w ∷ ws) q = pattern_matches w q || any_matches ws q

-- Whether each field of a rule has a text for the field of a record.
unfoldable pub rule_matches : List (List Bytes) → List Bytes → Bool
rule_matches (texts ∷ rule) (q ∷ fields) = any_matches texts q && rule_matches rule fields
rule_matches rule fields = true

-- The fields' bits from the bit `tag` on.
unfoldable pub all_selected : Node → List Bytes → ℕ → Bool
all_selected root [] tag = true
all_selected root (q ∷ fields) tag = selects root q tag && all_selected root fields (tag + 1)

-- The trie behind a call: it has its size, and the bits other than the tag are as before.
abbrev pub Kept : Trie → ℕ → ℕ → Trie → Type 0
Kept t lo hi t' =
    (t'.category_count ≡ t.category_count)
    × IsTrie t'
    × ((q : Bytes) (j : ℕ) → (j < lo) ⊎ (hi ≤ j) → selects t'.root q j ≡ selects t.root q j)

category_count-add_entry :
    (t : Trie) (w : Bytes) (tag : ℕ) (type : EntryType)
    → (add_entry t w tag type).0.category_count ≡ t.category_count
unfolding add_entry
category_count-add_entry t [] tag type = refl
category_count-add_entry t (c ∷ w) tag type = refl

-- What a call that adds texts for the bit `tag` has done.
abbrev Added : Trie → ℕ → (Bytes → Bool) → Trie × Option Exception → Type 0
Added t tag matches r =
    Kept t tag (suc tag) r.0
    × ((q : Bytes) → r.1 ≡ none → selects r.0.root q tag ≡ selects t.root q tag || matches q)

add_entry-Added :
    (t : Trie) (w : Bytes) (tag : ℕ) (type : EntryType)
    → IsTrie t
    → tag < t.category_count
    → Added t tag (accepted type w) (add_entry t w tag type)
add_entry-Added t w tag type h lt =
    let hit = selects-add_entry t h w tag type lt in
    (
      (
        category_count-add_entry t w tag type,
        hit.0,
        λ q j other. hit.1 q j ∙ ground (arith, other),
      ),
      λ q quiet. hit.1 q tag ∙ rw quiet (ground arith),
    )

pub add_pattern-Added :
    (t : Trie) (w : Bytes) (tag : ℕ)
    → IsTrie t
    → tag < t.category_count
    → Added t tag (pattern_matches w) (add_pattern t w tag)
unfolding add_pattern pattern_matches
add_pattern-Added t w tag h lt = elim (Bool-cases (get_or w (length w - 1) 0 == 0x2A)) [
  | inl star ↦ rw star (add_entry-Added t (take (length w - 1) w) tag prefix h lt)
  | inr whole ↦ rw whole (add_entry-Added t w tag complete h lt)
]

pub add_texts-Added :
    (t : Trie) (tag : ℕ) (ws : List Bytes)
    → IsTrie t
    → tag < t.category_count
    → Added t tag (any_matches ws) (add_texts t tag ws)
unfolding add_texts any_matches
add_texts-Added t tag [] h lt = ((refl, h, λ q j other. refl), λ q quiet. ground arith)
add_texts-Added t tag (w ∷ ws) h lt = elim (Bool-cases (has_upper w)) [
  | inl upper ↦ rw upper ((refl, h, λ q j other. refl), λ q quiet. cc)
  | inr fine ↦
      let one = add_pattern-Added t w tag h lt in
      rw fine (elim (Option-cases (add_pattern t w tag).1) [
        | inr (e, thrown) ↦ rw thrown (one.0, λ q quiet. cc)
        | inl quiet ↦
            let rest =
              add_texts-Added (add_pattern t w tag).0 tag ws one.0.1 (omega (arith, one.0.0)) in
            rw quiet (
              (rest.0.0 ∙ one.0.0, rest.0.1, λ q j other. rest.0.2 q j other ∙ one.0.2 q j other),
              λ q returned. rest.1 q returned ∙ ground (arith, one.1 q quiet),
            )
      ])
]

-- The fields' bits where a trie selects as another does.
pub all_selected_same :
    (root root' : Node) (fields : List Bytes) (tag : ℕ)
    → ((q : Bytes) (j : ℕ)
        → tag ≤ j
        → j < tag + length fields
        → selects root' q j ≡ selects root q j)
    → all_selected root' fields tag ≡ all_selected root fields tag
unfolding all_selected
all_selected_same root root' [] tag same = refl
all_selected_same root root' (q ∷ fields) tag same =
    ap₂ (λ a b. a && b) (same q tag (omega arith) (omega arith))
      (all_selected_same root root' fields (tag + 1)
        (λ q j lo hi. same q j (omega arith) (omega arith)))

pub all_selected_none :
    (root : Node) (tag : ℕ) (fields : List Bytes)
    → length fields ≡ 0
    → all_selected root fields tag ≡ true
unfolding all_selected
all_selected_none root tag [] e = refl
all_selected_none root tag (q ∷ fields) e = absurd (omega arith)

all_selected-cons :
    (root : Node) (tag : ℕ) (texts : List Bytes) (rule : List (List Bytes)) (fields : List Bytes)
    → length fields ≡ suc (length rule)
    → ((q : Bytes) → selects root q tag ≡ any_matches texts q)
    → ((fs : List Bytes)
        → length fs ≡ length rule
        → all_selected root fs (tag + 1) ≡ rule_matches rule fs)
    → all_selected root fields tag ≡ rule_matches (texts ∷ rule) fields
unfolding all_selected rule_matches
all_selected-cons root tag texts rule [] e first rest = absurd (omega arith)
all_selected-cons root tag texts rule (q ∷ fields) e first rest =
    ap₂ (λ a b. a && b) (first q) (rest fields (omega arith))

pub add_fields-Added :
    (t : Trie) (tag : ℕ) (rule : List (List Bytes))
    → IsTrie t
    → tag + length rule ≤ t.category_count
    → t.category_count ≤ 2 ^ 32
    → let r = add_fields t tag rule in
      Kept t tag (tag + length rule) r.0
      × ((fields : List Bytes)
          → r.1 ≡ none
          → length fields ≡ length rule
          → ((q : Bytes) (j : ℕ) → tag ≤ j → selects t.root q j ≡ false)
          → all_selected r.0.root fields tag ≡ rule_matches rule fields)
unfolding add_fields rule_matches all_selected
add_fields-Added t tag [] h room small =
    ((refl, h, λ q j other. refl), λ fields returned e fresh. all_selected_none t.root tag fields e)
add_fields-Added t tag (texts ∷ rule) h room small =
    let at : tag % 2 ^ 32 ≡ tag = omega arith in
    let one = add_texts-Added t tag texts h (omega arith) in
    rw at (elim (Option-cases (add_texts t tag texts).1) [
      | inr (e, thrown) ↦ rw thrown (
        (one.0.0, one.0.1, λ q j other. one.0.2 q j (ground (arith, other))),
        λ fields returned. cc,
      )
      | inl quiet ↦
          let rest =
            add_fields-Added (add_texts t tag texts).0 (tag + 1) rule one.0.1
              (omega (arith, one.0.0)) (omega (arith, one.0.0)) in
          rw quiet (
            (
              rest.0.0 ∙ one.0.0,
              rest.0.1,
              λ q j other.
                  rest.0.2 q j (ground (arith, other)) ∙ one.0.2 q j (ground (arith, other)),
            ),
            λ fields returned e fresh.
                all_selected-cons _ tag texts rule fields e
                  (λ q.
                    rest.0.2 q tag (inl (omega arith))
                    ∙ one.1 q quiet
                    ∙ rw (fresh q tag (omega arith)) refl)
                  (λ fs same.
                    rest.1 fs returned same
                      (λ q j le. one.0.2 q j (inr (omega arith)) ∙ fresh q j (omega arith))),
          )
    ])

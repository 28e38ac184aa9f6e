-- ===== src/Expirator/Waiting.antt =====
-- A key that is added is handed over at the tick at which its wait is over, once, and not before.
use smppgw.Base.{
  ℕ, zero, suc, ◌+◌, ◌-◌, ◌/◌, ◌%◌, ◌^◌, ◌<◌, ◌≤◌, ◌≡◌, ◌≢◌, refl, ap, sym, ◌∙◌, true, false, List,
  [], ◌∷◌, ◌++◌, none, some, map, ◌==◌, arith, Bool-cases, Option-cases, inl, inr, ==_iff,
}
use smppgw.Expirator.{
  Entry, Expirator, find_key, insert, entry_of, add, get_info, remove, equal_range, erase_left,
  on_timer,
}
use smppgw.Expirator.Keys.{
  of_key, handed_for, find_key-of_key, of_key-none, of_key-erase_right, of_key-erase_left,
  handed_for-equal_range,
}

-- What can happen to an expirator between two calls of `expire_all`.
pub data Op (A : Type 0) : Type 0 where
  adds : ℕ → ℕ → A → Op A
  removes : ℕ → Op A
  ticks : Op A

module _ {A : Type 0} where
  -- The expirator behind a list of operations, and what the handler was handed meanwhile.
  unfoldable pub run : List (Op A) → Expirator A → Expirator A × List (ℕ × A)
  run [] x = (x, [])
  run (adds k count i ∷ ops) x = run ops (add x k count i)
  run (removes k ∷ ops) x = run ops (remove x k).0
  run (ticks ∷ ops) x = let t = on_timer x in let rest = run ops t.0 in (rest.0, t.1 ++ rest.1)

  abbrev pub tick_count : List (Op A) → ℕ
  tick_count [] = 0
  tick_count (adds k count i ∷ ops) = tick_count ops
  tick_count (removes k ∷ ops) = tick_count ops
  tick_count (ticks ∷ ops) = suc (tick_count ops)

  -- The key is not removed.
  abbrev pub Leaves : ℕ → List (Op A) → Type 0
  Leaves k [] = Unit
  Leaves k (adds j count i ∷ ops) = Leaves k ops
  Leaves k (removes j ∷ ops) = (j ≢ k) × Leaves k ops
  Leaves k (ticks ∷ ops) = Leaves k ops

  -- One element for the key, due in `r` ticks.
  abbrev Waits : ℕ → Entry A → ℕ → Expirator A → Type 0
  Waits k e r x = (of_key k x.index_keys ≡ e ∷ []) × (e.key ≡ k) × (e.due ≡ (x.index + r) % 2 ^ 32)

  Waits-found :
      (k r : ℕ) (e : Entry A) (x : Expirator A) → Waits k e r x → get_info x k ≡ some e.info
  unfolding get_info find_key
  Waits-found k r e x h =
      let same : (e.key == k) ≡ true = ground (arith, h.1) in
      sym (find_key-of_key k x.index_keys) ∙ ap (find_key k) h.0 ∙ rw same refl

  Waits-add :
      (k r j count : ℕ) (i : A) (e : Entry A) (x : Expirator A)
      → Waits k e r x
      → Waits k e r (add x j count i)
  unfolding add insert of_key get_info
  Waits-add k r j count i e x h = elim (Option-cases (find_key j x.index_keys)) [
    | inr (i', there) ↦ rw there h
    | inl absent ↦ elim (Bool-cases (j == k)) [
      | inl same ↦
          let found =
            ap (λ l. find_key l x.index_keys) ((==_iff j k).0 same) ∙ Waits-found k r e x h in
          let never = sym absent ∙ found in cc
      | inr other ↦ rw (absent, other) h
    ]
  ]

  Waits-remove :
      (k r j : ℕ) (e : Entry A) (x : Expirator A)
      → j ≢ k
      → Waits k e r x
      → Waits k e r (remove x j).0
  unfolding remove
  Waits-remove k r j e x other h = (of_key-erase_right k j x.index_keys other ∙ h.0, h.1, h.2)

  Waits-tick :
      (k r : ℕ) (e : Entry A) (x : Expirator A)
      → suc r < 2 ^ 32
      → Waits k e (suc r) x
      → Waits k e r (on_timer x).0 × (handed_for k (on_timer x).1 ≡ [])
  unfolding on_timer equal_range erase_left
  Waits-tick k r e x small h =
      let i = x.index % 2 ^ 32 in
      let later : (e.due == i) ≡ false = ground (arith, h.2) in
      (
        (
          of_key-erase_left k i x.index_keys ∙ ap (erase_left i) h.0 ∙ rw later refl,
          h.1,
          omega (arith, h.2),
        ),
        handed_for-equal_range k i x.index_keys
            ∙ ap (λ es. map (λ e. e.info) (equal_range i es)) h.0
            ∙ rw later refl,
      )

  handed_for-append :
      (k : ℕ) (ps qs : List (ℕ × A)) → handed_for k (ps ++ qs) ≡ handed_for k ps ++ handed_for k qs
  unfolding handed_for
  handed_for-append k [] qs = refl
  handed_for-append k (p ∷ ps) qs = elim (Bool-cases (p.0 == k)) [
    | inl same ↦ rw (same, handed_for-append k ps qs) refl
    | inr other ↦ rw (other, handed_for-append k ps qs) refl
  ]

  run-Waits :
      (k r : ℕ) (e : Entry A) (ops : List (Op A)) (x : Expirator A)
      → tick_count ops ≤ r
      → r < 2 ^ 32
      → Leaves k ops
      → Waits k e r x
      → Waits k e (r - tick_count ops) (run ops x).0 × (handed_for k (run ops x).1 ≡ [])
  unfolding run handed_for
  run-Waits k r e [] x le small left h = ((h.0, h.1, omega (arith, h.2)), refl)
  run-Waits k r e (adds j count i ∷ ops) x le small left h =
      run-Waits k r e ops (add x j count i) le small left (Waits-add k r j count i e x h)
  run-Waits k r e (removes j ∷ ops) x le small left h =
      run-Waits k r e ops (remove x j).0 le small left.1 (Waits-remove k r j e x left.0 h)
  run-Waits k zero e (ticks ∷ ops) x le small left h = absurd (omega arith)
  run-Waits k (suc r) e (ticks ∷ ops) x le small left h =
      let tick = Waits-tick k r e x small h in
      let rest = run-Waits k r e ops (on_timer x).0 (omega arith) (omega arith) left tick.0 in
      (
        (rest.0.0, rest.0.1, omega (arith, rest.0.2)),
        handed_for-append k (on_timer x).1 _ ∙ rw (tick.1, rest.1) refl,
      )

  Waits-new :
      (k count : ℕ) (i : A) (x : Expirator A)
      → get_info x k ≡ none
      → Waits k (entry_of x k count i) (count / x.period) (add x k count i)
  unfolding add insert get_info of_key
  Waits-new k count i x absent =
      let self : (k == k) ≡ true = ground arith in
      (rw (absent, self, of_key-none k x.index_keys absent) refl, refl, refl)

  module _ (x : Expirator A) (k count : ℕ) (i : A) (ops : List (Op A))
      (absent : get_info x k ≡ none) (short : count / x.period < 2 ^ 32) (left : Leaves k ops) where
    -- A key that is not there is added, its wait is fewer than 2 ^ 32 periods, and it is not
    -- removed. As long as there have been no more ticks than its wait has periods, its info is
    -- there and it was not handed over, whatever else is added, removed or handed over.
    pub add-waits :
        tick_count ops ≤ count / x.period
        → let y = run ops (add x k count i) in (get_info y.0 k ≡ some i) × (handed_for k y.1 ≡ [])
    add-waits le =
        let new = Waits-new k count i x absent in
        let behind = run-Waits k (count / x.period) _ ops (add x k count i) le short left new in
        (Waits-found k _ _ (run ops (add x k count i)).0 behind.0, behind.1)

    -- A key that is not there is added, its wait is fewer than 2 ^ 32 periods, and it is not
    -- removed. When there have been as many ticks as its wait has periods, the next tick hands it
    -- over, with its info and once; it was not handed over before, and is not there afterwards.
    pub add-expires :
        tick_count ops ≡ count / x.period
        → let y = run ops (add x k count i) in
          let last = on_timer y.0 in
          (handed_for k y.1 ≡ []) × (handed_for k last.1 ≡ i ∷ []) × (get_info last.0 k ≡ none)
    unfolding on_timer get_info equal_range erase_left find_key
    add-expires same =
        let e = entry_of x k count i in
        let y = run ops (add x k count i) in
        let new = Waits-new k count i x absent in
        let behind =
          run-Waits k (count / x.period) e ops (add x k count i) (omega (arith, same)) short left
            new in
        let index = y.0.index % 2 ^ 32 in
        let now : (e.due == index) ≡ true = ground (arith, behind.0.2, same) in
        let over : of_key k (erase_left index y.0.index_keys) ≡ [] =
          of_key-erase_left k index y.0.index_keys
          ∙ ap (erase_left index) behind.0.0
          ∙ rw now refl in
        (
          behind.1,
          handed_for-equal_range k index y.0.index_keys
              ∙ ap (λ es. map (λ e. e.info) (equal_range index es)) behind.0.0
              ∙ rw now refl,
          sym (find_key-of_key k (erase_left index y.0.index_keys)) ∙ ap (find_key k) over,
        )

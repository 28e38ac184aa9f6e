-- ===== src/Smpp/Session/Segments.antt =====
-- The receiving loop of a session: rounds, and how it depends on the segments that the bytes come in.
use smppgw.Base.{
  ltb_false→le, ℕ, zero, suc, ◌+◌, ◌-◌, ◌≤◌, ◌<◌, ◌≡◌, refl, sym, ap, ap₂, ◌∙◌, ◌⊎◌, inl, inr, true,
  false, [], ◌∷◌, ◌++◌, Option, none, some, length, take, drop, ltb, arith, Bool-cases, subst,
  length-append, length-drop, take-append_le, drop-append_le, get_or-append_lt, le→ltb_false,
}
use smppgw.Smpp.Byte.{Bytes}
use smppgw.Smpp.Session.{Session, header_length, deserialize_header, u32_at}
use smppgw.Smpp.Session.Receive.{Handlers, is_receiving, consume, receive_loop, receive}

pub subst_some :
    {A : Type 0} (P : A → Type 0) {a b : A} → ◌≡◌ {A = Option A} (some a) (some b) → P a → P b
subst_some P e h = subst P (cc) h

u32_at-append :
    (i : ℕ) (buf chunk : Bytes) → i + 3 < length buf → u32_at i (buf ++ chunk) ≡ u32_at i buf
u32_at-append i buf chunk h =
    rw
      (
        get_or-append_lt buf chunk i 0 (omega arith),
        get_or-append_lt buf chunk (i + 1) 0 (omega arith),
        get_or-append_lt buf chunk (i + 2) 0 (omega arith),
        get_or-append_lt buf chunk (i + 3) 0 (omega arith),
      )
      refl

header_append :
    (buf chunk : Bytes)
    → 16 ≤ length buf
    → deserialize_header (buf ++ chunk) ≡ deserialize_header buf
unfolding deserialize_header
header_append buf chunk h =
    let a = u32_at-append 0 buf chunk (omega arith) in
    let b = u32_at-append 4 buf chunk (omega arith) in
    let c = u32_at-append 8 buf chunk (omega arith) in
    let d = u32_at-append 12 buf chunk (omega arith) in
    λ i. record { command_length = a i; command_id = b i; command_status = c i; sequence = d i }

module _ (handlers : Handlers) where
  receive_loop_empty : (fuel : ℕ) (s : Session) → receive_loop handlers fuel [] s ≡ some (s, [])
  unfolding receive_loop
  receive_loop_empty zero s = refl
  receive_loop_empty (suc fuel) s = elim (Bool-cases (is_receiving s.receiving_state)) [
    | inl e ↦ rw e refl
    | inr e ↦ rw e refl
  ]

  pub receive_loop_zero :
      (buf : Bytes) (s : Session) → receive_loop handlers 0 buf s ≡ some (s, buf)
  unfolding receive_loop
  receive_loop_zero buf s = refl

  abbrev pub length_of : Bytes → ℕ
  length_of buf = (deserialize_header buf).command_length

  -- The loop breaks: receiving is paused, or the next message is not complete.
  abbrev pub Stops : Bytes → Session → Type 0
  Stops buf s =
      (is_receiving s.receiving_state ≡ false)
      ⊎ ((ltb (length buf) header_length ≡ true) ⊎ (ltb (length buf) (length_of buf) ≡ true))

  -- A message is complete.
  abbrev pub IsWhole : Bytes → Session → Type 0
  IsWhole buf s =
      (is_receiving s.receiving_state ≡ true)
      × (ltb (length buf) header_length ≡ false)
      × (ltb (length buf) (length_of buf) ≡ false)

  pub round :
      (buf : Bytes) (s : Session)
      → Stops buf s
        ⊎ ((IsWhole buf s × (ltb (length_of buf) header_length ≡ true))
            ⊎ (IsWhole buf s × (ltb (length_of buf) header_length ≡ false)))
  round buf s = elim (Bool-cases (is_receiving s.receiving_state)) [
    | inr e ↦ inl (inl e)
    | inl e ↦ elim (Bool-cases (ltb (length buf) header_length)) [
      | inl d ↦ inl (inr (inl d))
      | inr d ↦ elim (Bool-cases (ltb (length buf) (length_of buf))) [
        | inl c ↦ inl (inr (inr c))
        | inr c ↦ elim (Bool-cases (ltb (length_of buf) header_length)) [
          | inl b ↦ inr (inl ((e, d, c), b))
          | inr b ↦ inr (inr ((e, d, c), b))
        ]
      ]
    ]
  ]

  pub receive_loop_stop :
      (fuel : ℕ) (buf : Bytes) (s : Session)
      → Stops buf s
      → receive_loop handlers fuel buf s ≡ some (s, buf)
  unfolding receive_loop
  receive_loop_stop zero buf s h = refl
  receive_loop_stop (suc fuel) buf s h = ground (arith, h)

  pub receive_loop_undefined :
      (fuel : ℕ) (buf : Bytes) (s : Session)
      → IsWhole buf s
      → ltb (length_of buf) header_length ≡ true
      → receive_loop handlers (suc fuel) buf s ≡ none
  unfolding receive_loop
  receive_loop_undefined fuel buf s w h = rw (w.0, w.1, w.2, h) refl

  abbrev pub body_of : Bytes → Bytes
  body_of buf = take (length_of buf - header_length) (drop header_length buf)

  abbrev pub consumed : Bytes → Session → Session
  consumed buf s = consume handlers (deserialize_header buf) (body_of buf) s

  pub receive_loop_more :
      (fuel : ℕ) (buf : Bytes) (s : Session)
      → IsWhole buf s
      → ltb (length_of buf) header_length ≡ false
      → receive_loop handlers (suc fuel) buf s
        ≡ receive_loop handlers fuel (drop (length_of buf) buf) (consumed buf s)
  unfolding receive_loop
  receive_loop_more fuel buf s w h = rw (w.0, w.1, w.2, h) refl

  whole_size : (buf : Bytes) (s : Session) → IsWhole buf s → 16 ≤ length buf
  whole_size buf s w = ground (arith, w.1)

  -- A round leaves fewer bytes.
  pub round_size :
      (fuel : ℕ) (buf : Bytes) (s : Session)
      → IsWhole buf s
      → ltb (length_of buf) header_length ≡ false
      → length buf ≤ suc fuel
      → length (drop (length_of buf) buf) ≤ fuel
  round_size fuel buf s w h k =
      let step : 16 ≤ length_of buf = ltb_false→le _ _ h in
      omega (arith, length-drop (length_of buf) buf, whole_size buf s w, step)

  -- Fuel beyond the length of the buffer changes nothing.
  receive_loop_fuel :
      (f g : ℕ) (buf : Bytes) (s : Session)
      → length buf ≤ f
      → length buf ≤ g
      → receive_loop handlers f buf s ≡ receive_loop handlers g buf s
  receive_loop_fuel zero g [] s h k = receive_loop_empty 0 s ∙ sym (receive_loop_empty g s)
  receive_loop_fuel zero g (b ∷ buf) s h k = absurd (omega arith)
  receive_loop_fuel (suc f) zero [] s h k =
      receive_loop_empty (suc f) s ∙ sym (receive_loop_empty 0 s)
  receive_loop_fuel (suc f) zero (b ∷ buf) s h k = absurd (omega arith)
  receive_loop_fuel (suc f) (suc g) buf s h k = elim (round buf s) [
    | inl w ↦ receive_loop_stop (suc f) buf s w ∙ sym (receive_loop_stop (suc g) buf s w)
    | inr (inl (w, d)) ↦
        receive_loop_undefined f buf s w d ∙ sym (receive_loop_undefined g buf s w d)
    | inr (inr (w, d)) ↦
        receive_loop_more f buf s w d
        ∙ receive_loop_fuel f g (drop (length_of buf) buf) (consumed buf s)
            (round_size f buf s w d h) (round_size g buf s w d k)
        ∙ sym (receive_loop_more g buf s w d)
  ]

  -- A round, on the buffer's own fuel.
  pub receive_more :
      (buf : Bytes) (s : Session)
      → IsWhole buf s
      → ltb (length_of buf) header_length ≡ false
      → receive handlers buf s ≡ receive handlers (drop (length_of buf) buf) (consumed buf s)
  unfolding receive
  receive_more [] s w h = absurd (omega (arith, whole_size [] s w))
  receive_more (b ∷ buf) s w h =
      receive_loop_more (length buf) (b ∷ buf) s w h
      ∙ receive_loop_fuel (length buf) _ (drop (length_of (b ∷ buf)) (b ∷ buf))
          (consumed (b ∷ buf) s) (round_size (length buf) (b ∷ buf) s w h (omega arith))
          (omega arith)

  IsWhole-append :
      (buf chunk : Bytes) (s : Session)
      → IsWhole buf s
      → IsWhole (buf ++ chunk) s × (length_of (buf ++ chunk) ≡ length_of buf)
  IsWhole-append buf chunk s w =
      let same = ap (λ h. h.command_length) (header_append buf chunk (whole_size buf s w)) in
      let size = length-append buf chunk in
      let small : length_of buf ≤ length buf = ltb_false→le _ _ w.2 in
      (
        (
          w.0,
          le→ltb_false _ _ (omega (arith, size, whole_size buf s w)),
          le→ltb_false _ _ (omega (arith, size, same, small)),
        ),
        same,
      )

  body_append :
      (buf chunk : Bytes) (s : Session) → IsWhole buf s → body_of (buf ++ chunk) ≡ body_of buf
  body_append buf chunk s w =
      let small : length_of buf ≤ length buf = ltb_false→le _ _ w.2 in
      ap (λ n. take (n - header_length) (drop header_length (buf ++ chunk)))
        (IsWhole-append buf chunk s w).1
      ∙ ap (take (length_of buf - header_length)) (drop-append_le 16 buf chunk (whole_size buf s w))
      ∙ take-append_le (length_of buf - header_length) (drop 16 buf) chunk
          (omega (arith, length-drop 16 buf, small))

  -- A message that is complete is received in the same way when more bytes follow it.
  receive_more_append :
      (buf chunk : Bytes) (s : Session)
      → IsWhole buf s
      → ltb (length_of buf) header_length ≡ false
      → receive handlers (buf ++ chunk) s
        ≡ receive handlers (drop (length_of buf) buf ++ chunk) (consumed buf s)
  receive_more_append buf chunk s w d =
      let (whole, same) = IsWhole-append buf chunk s w in
      let small : length_of buf ≤ length buf = ltb_false→le _ _ w.2 in
      receive_more (buf ++ chunk) s whole (rw same d)
      ∙ ap₂ (λ b t. receive handlers b t)
          (ap (λ n. drop n (buf ++ chunk)) same ∙ drop-append_le (length_of buf) buf chunk small)
          (ap₂ (λ h b. consume handlers h b s) (header_append buf chunk (whole_size buf s w))
            (body_append buf chunk s w))

  receive_loop-append :
      (fuel : ℕ) (buf chunk : Bytes) (s t : Session) (rest : Bytes)
      → length buf ≤ fuel
      → receive_loop handlers fuel buf s ≡ some (t, rest)
      → receive handlers (buf ++ chunk) s ≡ receive handlers (rest ++ chunk) t
  receive_loop-append zero buf chunk s t rest h e =
      subst_some (λ r. receive handlers (buf ++ chunk) s ≡ receive handlers (r.1 ++ chunk) r.0)
        (sym (receive_loop_zero buf s) ∙ e) refl
  receive_loop-append (suc fuel) buf chunk s t rest h e = elim (round buf s) [
    | inl w ↦
        subst_some (λ r. receive handlers (buf ++ chunk) s ≡ receive handlers (r.1 ++ chunk) r.0)
          (sym (receive_loop_stop (suc fuel) buf s w) ∙ e) refl
    | inr (inl (w, d)) ↦ cc (receive_loop_undefined fuel buf s w d)
    | inr (inr (w, d)) ↦
        receive_more_append buf chunk s w d
        ∙ receive_loop-append fuel (drop (length_of buf) buf) chunk (consumed buf s) t rest
            (round_size fuel buf s w d h) (sym (receive_loop_more fuel buf s w d) ∙ e)
  ]

  -- If the loop is defined on one segment, what it leaves, with the bytes of the next segment behind
  -- it, leads to the same outcome as the bytes of both segments at once.
  pub receive-append :
      (buf chunk : Bytes) (s t : Session) (rest : Bytes)
      → receive handlers buf s ≡ some (t, rest)
      → receive handlers (buf ++ chunk) s ≡ receive handlers (rest ++ chunk) t
  receive-append buf chunk s t rest e =
      receive_loop-append (length buf) buf chunk s t rest (omega arith) (unfold receive in e)

-- ===== src/Smpp/Oparam/RoundTrip.antt =====
-- Reading and writing optional parameters, and the accessors of the map.
use smppgw.Base.{
  ℕ, zero, suc, ◌+◌, ◌≤◌, ◌<◌, ◌≡◌, ◌⊎◌, refl, true, [], ◌∷◌, ◌++◌, some, length, take, drop, ltb,
  ◌==◌, if◌then◌else◌, arith, inl, inr, Bool-cases, ltb→lt, All, All-append, append_assoc,
  append-nil, take-length_append, drop-length_append, length-append, length-drop, le→ltb_false,
}
use smppgw.Base.Results.{ok, throw, length_error}
use smppgw.Smpp.Byte.{Bytes, AreBytes, u16_of, u16_of-bytes}
use smppgw.Smpp.Oparam.{
  Oparam, IsMap, IsMapFrom, emplace, assign, find, read_loop, deserialize, serialize, get_as_string,
  set_as_string,
}

abbrev Under : ℕ → Oparam → Type 0
Under t = All (λ e. e.0 < t)

-- A tag above all that are there goes to the end.
emplace_above : (t : ℕ) (v : Bytes) (m : Oparam) → Under t m → emplace t v m ≡ m ++ (t, v) ∷ []
unfolding emplace
emplace_above t v [] h = refl
emplace_above t v ((s, w) ∷ m) h = ground (arith, emplace_above t v m h.1)

Under-mono : {s t : ℕ} (m : Oparam) → s ≤ t → Under s m → Under t m
Under-mono [] h u = tt
Under-mono (e ∷ m) h u = (omega arith, Under-mono m h u.1)

length-serialize :
    (t : ℕ) (v : Bytes) (m : Oparam)
    → length (serialize ((t, v) ∷ m)) ≡ 4 + length v + length (serialize m)
unfolding serialize
length-serialize t v m = omega (arith, length-append v (serialize m))

read_loop-serialize :
    (fuel low : ℕ) (acc m : Oparam)
    → length (serialize m) ≤ fuel
    → Under low acc
    → IsMapFrom low m
    → read_loop fuel acc (serialize m) ≡ ok (acc ++ m, [])
unfolding read_loop serialize
read_loop-serialize zero low acc [] h u w = rw append-nil
read_loop-serialize (suc fuel) low acc [] h u w = rw append-nil
read_loop-serialize zero low acc ((t, v) ∷ m) h u w = absurd (omega arith)
read_loop-serialize (suc fuel) low acc ((t, v) ∷ m) h u w = rw (
  u16_of-bytes (length v) w.2,
  u16_of-bytes t w.1,
  take-length_append v (serialize m),
  drop-length_append v (serialize m),
  le→ltb_false (length (v ++ serialize m)) (length v)
      (omega (arith, length-append v (serialize m))),
  emplace_above t v acc (Under-mono acc w.0 u),
  read_loop-serialize fuel (t + 1) (acc ++ (t, v) ∷ []) m
      (omega (arith, length-append v (serialize m)))
      (All-append (λ (e : ℕ × Bytes). e.0 < t + 1) acc ((t, v) ∷ [])
        (Under-mono acc (omega arith) u) (omega arith, tt))
      w.4,
  append_assoc,
)

-- What the constructor reads from the bytes that `serialize` wrote is the map that was written.
pub deserialize-serialize : (m : Oparam) → IsMap m → deserialize (serialize m) ≡ ok (m, [])
unfolding deserialize
deserialize-serialize m w = read_loop-serialize (length (serialize m)) 0 [] m (omega arith) tt w

read_loop-leftover :
    (fuel : ℕ) (acc : Oparam) (buf : Bytes) {m : Oparam} {rest : Bytes}
    → length buf ≤ fuel
    → read_loop fuel acc buf ≡ ok (m, rest)
    → length rest < 4
unfolding read_loop
read_loop-leftover zero acc [] h e = ground arith
read_loop-leftover zero acc (a ∷ buf) h e = absurd (omega arith)
read_loop-leftover (suc fuel) acc (a ∷ b ∷ c ∷ d ∷ buf) {m} {rest} h e = ground (
  arith,
  read_loop-leftover fuel (emplace (u16_of a b) (take (u16_of c d) buf) acc) (drop (u16_of c d) buf)
      {m = m} {rest = rest},
  length-drop (u16_of c d) buf,
)
read_loop-leftover (suc fuel) acc _ h e = ground arith

-- A read that succeeds went on until less than a tag and a length was left.
pub deserialize-leftover :
    (buf : Bytes) {m : Oparam} {rest : Bytes} → deserialize buf ≡ ok (m, rest) → length rest < 4
unfolding deserialize
deserialize-leftover buf e = read_loop-leftover (length buf) [] buf (omega arith) e

pub find-assign :
    (tag t : ℕ) (v : Bytes) (m : Oparam)
    → find t (assign tag v m) ≡ (if tag == t then some v else find t m)
unfolding find assign
find-assign tag t v [] = refl
find-assign tag t v ((s, w) ∷ m) = ground (arith, find-assign tag t v m)

ltb_succ : (a b : ℕ) → ltb a b ≡ true → a + 1 ≤ b
ltb_succ a b h = ground arith

assign-IsMapFrom :
    (low tag : ℕ) (v : Bytes) (m : Oparam)
    → IsMapFrom low ((tag, v) ∷ [])
    → IsMapFrom low m
    → IsMapFrom low (assign tag v m)
unfolding assign
assign-IsMapFrom low tag v [] h w = h
assign-IsMapFrom low tag v ((s, u) ∷ m) h w = elim (Bool-cases (ltb tag s)) [
  | inl e ↦ rw e (h.0, h.1, h.2, h.3, (ltb_succ tag s e, w.1, w.2, w.3, w.4))
  | inr e ↦ rw e (elim (Bool-cases (tag == s)) [
    | inl d ↦ rw d (w.0, w.1, h.2, h.3, w.4)
    | inr d ↦
        rw d (
          w.0,
          w.1,
          w.2,
          w.3,
          assign-IsMapFrom (s + 1) tag v m (ground arith, h.1, h.2, h.3, tt) w.4,
        )
  ])
]

-- Setting a parameter: a value longer than a length field can say is refused; otherwise the
-- parameter reads back, the others read as before, and the map is one that can be sent.
pub get_as_string-set_as_string :
    (tag : ℕ) (v : Bytes) (m : Oparam)
    → ((65535 < length v) × (set_as_string tag v m ≡ throw length_error))
      ⊎ ((m' : Oparam) × (set_as_string tag v m ≡ ok m')
          × ((t : ℕ) → get_as_string t m' ≡ (if tag == t then ok v else get_as_string t m))
          × (tag < 65536 → AreBytes v → IsMap m → IsMap m'))
unfolding set_as_string get_as_string
get_as_string-set_as_string tag v m = elim (Bool-cases (ltb 65535 (length v))) [
  | inl e ↦ inl (ltb→lt _ _ e, rw e)
  | inr e ↦ inr (
    assign tag v m,
    rw e,
    λ t. ground (arith, find-assign tag t v m),
    λ h b w. assign-IsMapFrom 0 tag v m (omega arith, h, ground arith, b, tt) w,
  )
]

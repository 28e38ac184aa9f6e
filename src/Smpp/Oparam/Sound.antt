-- ===== src/Smpp/Oparam/Sound.antt =====
-- What the constructor of `oparam` reads from bytes is a map that can be sent on.
use smppgw.Base.{
  ℕ, zero, suc, ◌+◌, ◌≤◌, ◌<◌, ◌≡◌, true, inl, inr, [], ◌∷◌, length, take, drop, ltb, ◌==◌, arith,
  Bool-cases, All-take, All-drop, length-take,
}
use smppgw.Base.Results.{Result, ok, subst_ok}
use smppgw.Smpp.Byte.{Bytes, AreBytes, u16_of}
use smppgw.Smpp.Oparam.{Oparam, IsMap, IsMapFrom, emplace, read_loop, deserialize}

pub emplace-IsMapFrom :
    (low tag : ℕ) (v : Bytes) (m : Oparam)
    → IsMapFrom low ((tag, v) ∷ [])
    → IsMapFrom low m
    → IsMapFrom low (emplace tag v m)
unfolding emplace
emplace-IsMapFrom low tag v [] h w = h
emplace-IsMapFrom low tag v ((s, u) ∷ m) h w = elim (Bool-cases (ltb tag s)) [
  | inl e ↦ rw e (h.0, h.1, h.2, h.3, (next tag s e, w.1, w.2, w.3, w.4))
  | inr e ↦ rw e (elim (Bool-cases (tag == s)) [
    | inl d ↦ rw d w
    | inr d ↦ rw d (
      w.0,
      w.1,
      w.2,
      w.3,
      emplace-IsMapFrom (s + 1) tag v m (ground arith, h.1, h.2, h.3, tt) w.4,
    )
  ])
]
  where
    next : (a b : ℕ) → ltb a b ≡ true → a + 1 ≤ b
    next a b e = ground arith

u16_small : (a b : ℕ) → a < 256 → b < 256 → u16_of a b < 65536
u16_small a b h k = omega arith

pub entry :
    (a b c d : ℕ) (rest : Bytes)
    → AreBytes (a ∷ b ∷ c ∷ d ∷ rest)
    → IsMapFrom 0 ((u16_of a b, take (u16_of c d) rest) ∷ [])
entry a b c d rest h = (
  omega arith,
  u16_small a b h.0 h.1.0,
  omega (arith, length-take (u16_of c d) rest, u16_small c d h.1.1.0 h.1.1.1.0),
  All-take (λ (x : ℕ). x < 256) (u16_of c d) rest h.1.1.1.1,
  tt,
)

abbrev pub Sound : Oparam → Bytes → Type 0
Sound m rest = IsMap m × AreBytes rest

done :
    (acc : Oparam) (buf : Bytes) (m : Oparam) (rest : Bytes)
    → IsMap acc
    → AreBytes buf
    → ◌≡◌ {A = Result (Oparam × Bytes)} (ok (acc, buf)) (ok (m, rest))
    → Sound m rest
done acc buf m rest w h e = subst_ok (λ (r : Oparam × Bytes). Sound r.0 r.1) e (w, h)

read_loop-Sound :
    (fuel : ℕ) (acc : Oparam) (buf : Bytes) (m : Oparam) (rest : Bytes)
    → IsMap acc
    → AreBytes buf
    → read_loop fuel acc buf ≡ ok (m, rest)
    → Sound m rest
unfolding read_loop
read_loop-Sound zero acc buf m rest w h e = done acc buf m rest w h e
read_loop-Sound (suc fuel) acc (a ∷ b ∷ c ∷ d ∷ buf) m rest w h e =
    elim (Bool-cases (ltb (length buf) (u16_of c d))) [
      | inl short ↦ cc short
      | inr long ↦
          read_loop-Sound fuel (emplace (u16_of a b) (take (u16_of c d) buf) acc)
            (drop (u16_of c d) buf) m rest
            (emplace-IsMapFrom 0 (u16_of a b) (take (u16_of c d) buf) acc (entry a b c d buf h) w)
            (All-drop (λ (x : ℕ). x < 256) (u16_of c d) buf h.1.1.1.1) (rw long at e)
    ]
read_loop-Sound (suc fuel) acc buf m rest w h e = done acc buf m rest w h e

-- Bytes that are read without an error give a map with ascending tags, whose lengths fit.
pub deserialize-Sound :
    (buf : Bytes) (m : Oparam) (rest : Bytes)
    → AreBytes buf
    → deserialize buf ≡ ok (m, rest)
    → Sound m rest
unfolding deserialize
deserialize-Sound buf m rest h e = read_loop-Sound (length buf) [] buf m rest tt h e

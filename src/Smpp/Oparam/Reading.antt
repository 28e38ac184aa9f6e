-- ===== src/Smpp/Oparam/Reading.antt =====
-- What the constructor of `oparam` reads: the parameters that the bytes hold, one behind another.
use smppgw.Base.{
  ℕ, zero, suc, ◌+◌, ◌/◌, ◌%◌, ◌≤◌, ◌<◌, ◌≡◌, ◌⊎◌, refl, ap, sym, ◌∙◌, false, inl, inr, [], ◌∷◌,
  ◌++◌, Option, none, some, length, take, drop, ltb, ◌==◌, if◌then◌else◌, arith, All, Bool-cases,
  All-drop, length-take, length-drop, append_assoc, take-append-drop, ltb_false→le, ltb→lt,
}
use smppgw.Base.Results.{Result, ok, throw, length_error}
use smppgw.Smpp.Byte.{Bytes, AreBytes, u16_of}
use smppgw.Smpp.Oparam.{Oparam, IsMap, IsMapFrom, emplace, find, read_loop, deserialize, serialize}
use smppgw.Smpp.Oparam.Sound.{emplace-IsMapFrom, entry}

abbrev pub or_else : Option Bytes → Option Bytes → Option Bytes
or_else none y = y
or_else (some v) y = some v

or_else-none : (x : Option Bytes) → or_else x none ≡ x
or_else-none none = refl
or_else-none (some v) = refl

or_else_assoc : (x y z : Option Bytes) → or_else (or_else x y) z ≡ or_else x (or_else y z)
or_else_assoc none y z = refl
or_else_assoc (some v) y z = refl

find_below : (low k : ℕ) (m : Oparam) → IsMapFrom low m → k < low → find k m ≡ none
unfolding find
find_below low k [] h less = refl
find_below low k ((t, v) ∷ m) h less =
    let above : low ≤ t = h.0 in
    let apart : (t == k) ≡ false = ground arith in
    rw apart (find_below (t + 1) k m h.4 (omega arith))

-- A tag that is there keeps its value.
find-emplace :
    (low tag k : ℕ) (v : Bytes) (m : Oparam)
    → IsMapFrom low m
    → find k (emplace tag v m) ≡ or_else (find k m) (if tag == k then some v else none)
unfolding find emplace
find-emplace low tag k v [] h = refl
find-emplace low tag k v ((t, w) ∷ m) h = elim (Bool-cases (ltb tag t)) [
  | inl less ↦ elim (Bool-cases (tag == k)) [
    | inl same ↦
        let apart : (t == k) ≡ false = ground arith in
        rw (less, same, apart, find_below (t + 1) k m h.4 (ground arith)) refl
    | inr other ↦ rw (less, other) (sym (or_else-none (find k ((t, w) ∷ m))))
  ]
  | inr more ↦ elim (Bool-cases (tag == t)) [
    | inl taken ↦ elim (Bool-cases (t == k)) [
      | inl same ↦ rw (more, taken, same) refl
      | inr apart ↦
          let other : (tag == k) ≡ false = ground arith in
          rw (more, taken, apart, other) (sym (or_else-none (find k m)))
    ]
    | inr free ↦ elim (Bool-cases (t == k)) [
      | inl same ↦ rw (more, free, same) refl
      | inr apart ↦ rw (more, free, apart) (find-emplace (t + 1) tag k v m h.4)
    ]
  ]
]

abbrev pub IsShort : ℕ × Bytes → Type 0
IsShort e = (e.0 < 65536) × (length e.1 < 65536)

-- A tag and a length are there, and less than so many bytes behind them.
abbrev pub IsCut : Bytes → Type 0
IsCut buf =
    (a b c d : ℕ) × (more : Bytes) × (buf ≡ a ∷ b ∷ c ∷ d ∷ more) × (length more < u16_of c d)

-- Either the bytes are parameters and less than four bytes behind them, and a map is read in which each
-- tag has the first value that it has in the bytes, or a parameter is cut off.
abbrev pub Reading : Oparam → Bytes → Result (Oparam × Bytes) → Type 0
Reading acc buf outcome =
    (es : Oparam) × (rest : Bytes) × All IsShort es
    × (buf ≡ serialize es ++ rest)
    × (((length rest < 4)
          × (m : Oparam) × (outcome ≡ ok (m, rest))
          × IsMap m
          × ((k : ℕ) → find k m ≡ or_else (find k acc) (find k es)))
        ⊎ (IsCut rest × (outcome ≡ throw length_error)))

u16_high : (a b : ℕ) → a < 256 → b < 256 → u16_of a b / 256 % 256 ≡ a
u16_high a b h k = omega arith

u16_low : (a b : ℕ) → b < 256 → u16_of a b % 256 ≡ b
u16_low a b k = omega arith

-- The bytes of a parameter are those that it is read from.
serialize-entry :
    (a b c d : ℕ) (buf : Bytes) (es : Oparam) (rest : Bytes)
    → AreBytes (a ∷ b ∷ c ∷ d ∷ buf)
    → u16_of c d ≤ length buf
    → drop (u16_of c d) buf ≡ serialize es ++ rest
    → a ∷ b ∷ c ∷ d ∷ buf ≡ serialize ((u16_of a b, take (u16_of c d) buf) ∷ es) ++ rest
unfolding serialize
serialize-entry a b c d buf es rest h enough e =
    let val = take (u16_of c d) buf in
    let size : length val ≡ u16_of c d = omega (arith, length-take (u16_of c d) buf) in
    rw
      (
        size,
        u16_high a b h.0 h.1.0,
        u16_low a b h.1.0,
        u16_high c d h.1.1.0 h.1.1.1.0,
        u16_low c d h.1.1.1.0,
        append_assoc val (serialize es) rest,
        sym e,
        take-append-drop (u16_of c d) buf,
      )
      refl

find-entry :
    (tag k : ℕ) (v : Bytes) (acc es : Oparam)
    → IsMap acc
    → or_else (find k (emplace tag v acc)) (find k es)
      ≡ or_else (find k acc) (find k ((tag, v) ∷ es))
find-entry tag k v acc es w =
    ap (λ x. or_else x (find k es)) (find-emplace 0 tag k v acc w)
    ∙ or_else_assoc (find k acc) (if tag == k then some v else none) (find k es)
    ∙ ap (or_else (find k acc)) (first_entry tag k v es)
  where
    first_entry :
        (tag k : ℕ) (v : Bytes) (es : Oparam)
        → or_else (if tag == k then some v else none) (find k es) ≡ find k ((tag, v) ∷ es)
    first_entry tag k v es =
        unfold find in
        elim (Bool-cases (tag == k)) [ inl same ↦ rw (same) refl | inr other ↦ rw (other) refl ]

-- A parameter in front of what is read.
Reading-entry :
    (acc : Oparam) (a b c d : ℕ) (buf : Bytes) (outcome : Result (Oparam × Bytes))
    → IsMap acc
    → AreBytes (a ∷ b ∷ c ∷ d ∷ buf)
    → u16_of c d ≤ length buf
    → Reading (emplace (u16_of a b) (take (u16_of c d) buf) acc) (drop (u16_of c d) buf) outcome
    → Reading acc (a ∷ b ∷ c ∷ d ∷ buf) outcome
Reading-entry acc a b c d buf outcome w h enough r =
    let val = take (u16_of c d) buf in
    let small = entry a b c d buf h in
    (
      (u16_of a b, val) ∷ r.0,
      r.1,
      ((small.1, small.2), r.2),
      serialize-entry a b c d buf r.0 r.1 h enough r.3,
      elim r.4 [
        | inr cut ↦ inr cut
        | inl read ↦ inl (
          read.0,
          read.1,
          read.2,
          read.3,
          λ k. read.4 k ∙ find-entry (u16_of a b) k val acc r.0 w,
        )
      ],
    )

Reading-end :
    (acc : Oparam) (buf : Bytes) → IsMap acc → length buf < 4 → Reading acc buf (ok (acc, buf))
unfolding serialize find
Reading-end acc buf w short =
    ([], buf, tt, refl, inl (short, acc, refl, w, λ k. sym (or_else-none (find k acc))))

read_loop-Reading :
    (fuel : ℕ) (acc : Oparam) (buf : Bytes)
    → length buf ≤ fuel
    → IsMap acc
    → AreBytes buf
    → Reading acc buf (read_loop fuel acc buf)
unfolding read_loop
read_loop-Reading zero acc buf enough w h = Reading-end acc buf w (omega arith)
read_loop-Reading (suc fuel) acc (a ∷ b ∷ c ∷ d ∷ buf) enough w h =
    elim (Bool-cases (ltb (length buf) (u16_of c d))) [
      | inl short ↦ rw short (
        [],
        a ∷ b ∷ c ∷ d ∷ buf,
        tt,
        unfold serialize in refl,
        inr ((a, b, c, d, buf, refl, ltb→lt (length buf) (u16_of c d) short), refl),
      )
      | inr long ↦
          let val = take (u16_of c d) buf in
          rw long (
            Reading-entry acc a b c d buf _ w h (ltb_false→le (length buf) (u16_of c d) long) (
              read_loop-Reading fuel (emplace (u16_of a b) val acc) (drop (u16_of c d) buf)
                (omega (arith, length-drop (u16_of c d) buf))
                (emplace-IsMapFrom 0 (u16_of a b) val acc (entry a b c d buf h) w)
                (All-drop (λ (x : ℕ). x < 256) (u16_of c d) buf h.1.1.1.1)))
    ]
read_loop-Reading (suc fuel) acc [] enough w h = Reading-end acc [] w (omega arith)
read_loop-Reading (suc fuel) acc (a ∷ []) enough w h = Reading-end acc (a ∷ []) w (omega arith)
read_loop-Reading (suc fuel) acc (a ∷ b ∷ []) enough w h =
    Reading-end acc (a ∷ b ∷ []) w (omega arith)
read_loop-Reading (suc fuel) acc (a ∷ b ∷ c ∷ []) enough w h =
    Reading-end acc (a ∷ b ∷ c ∷ []) w (omega arith)

-- The bytes begin with the parameters that are read, whole and one behind another. Either less than
-- four bytes are left behind them, and the map that is read has for each tag the first value that the
-- bytes give it and none for other tags, with its tags in order; or a parameter is left that is cut
-- off, and `length_error` is thrown.
pub deserialize-Reading : (buf : Bytes) → AreBytes buf → Reading [] buf (deserialize buf)
unfolding deserialize
deserialize-Reading buf h = read_loop-Reading (length buf) [] buf (omega arith) tt h

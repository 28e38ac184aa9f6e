-- ===== src/Smpp/FlatBuffer/Refinement.antt =====
-- The receive buffer is a queue of bytes.
use smppgw.Base.{
  leb_false→lt, ltb_false→le, ℕ, zero, suc, ◌+◌, ◌-◌, ◌≤◌, ◌<◌, ◌≡◌, ◌⊎◌, inl, inr, refl, sym, ap,
  ap₂, ◌∙◌, List, [], ◌∷◌, ◌++◌, length, take, drop, min, ltb, leb, arith, Bool-cases,
  length-append, length-take, length-drop, append_assoc, drop-append_le, take-length_append, ltb→lt,
  leb→le,
}
use smppgw.Base.Results.{ok, throw, length_error}
use smppgw.Smpp.FlatBuffer.{
  FlatBuffer, IsFlat, capacity, size, data_of, moved, prepare, commit, consume, fill,
}

drop-nil : (i : ℕ) → drop {A = ℕ} i [] ≡ []
drop-nil zero = refl
drop-nil (suc i) = refl

take-nil : (n : ℕ) → take {A = ℕ} n [] ≡ []
take-nil zero = refl
take-nil (suc n) = refl

drop-take : (i n : ℕ) (xs : List ℕ) → drop i (take n xs) ≡ take (n - i) (drop i xs)
drop-take zero n xs = ap (λ k. take k xs) (omega arith)
drop-take (suc i) zero xs = ap (λ k. take k (drop (suc i) xs)) {x = 0} (omega arith)
drop-take (suc i) (suc n) [] = sym (take-nil (suc n - suc i))
drop-take (suc i) (suc n) (x ∷ xs) =
    drop-take i n xs ∙ ap (λ k. take k (drop i xs)) {x = n - i} (omega arith)

drop-drop : (i n : ℕ) (xs : List ℕ) → drop i (drop n xs) ≡ drop (n + i) xs
drop-drop i zero xs = ap (λ k. drop k xs) (omega arith)
drop-drop i (suc n) [] = drop-nil i ∙ sym (drop-nil (suc n + i))
drop-drop i (suc n) (x ∷ xs) =
    drop-drop i n xs ∙ ap (λ k. drop k (x ∷ xs)) {x = suc (n + i)} {y = suc n + i} (omega arith)

length-data_of : (b : FlatBuffer) → IsFlat b → length (data_of b) ≡ b.out - b.first
unfolding data_of
length-data_of b w = omega (
  arith,
  length-take (b.out - b.first) (drop b.first b.array),
  length-drop b.first b.array,
  w.first_out,
  w.out_last,
  w.last_end,
)

data_of-fill :
    (b : FlatBuffer) (chunk : List ℕ)
    → IsFlat b
    → length chunk ≤ b.last - b.out
    → IsFlat (commit (length chunk) (fill chunk b))
      × (data_of (commit (length chunk) (fill chunk b)) ≡ data_of b ++ chunk)
unfolding commit fill data_of
data_of-fill b chunk w h =
    let kept = take b.out b.array in
    let behind = drop (b.out + length chunk) b.array in
    let long : length kept ≡ b.out =
      omega (arith, length-take b.out b.array, w.out_last, w.last_end) in
    let array_length : length (kept ++ (chunk ++ behind)) ≡ length b.array = omega (
      arith,
      long,
      length-append kept (chunk ++ behind),
      length-append chunk behind,
      length-drop (b.out + length chunk) b.array,
      w.out_last,
      w.last_end,
      h,
    ) in
    let start =
      drop-append_le b.first kept (chunk ++ behind) (omega (arith, long, w.first_out))
      ∙ ap (λ d. d ++ (chunk ++ behind)) (drop-take b.first b.out b.array)
      ∙ sym (append_assoc (data_of b) chunk behind) in
    let count : b.out + min (length chunk) (b.last - b.out) - b.first
        ≡ length (data_of b ++ chunk) =
      omega (arith, length-append (data_of b) chunk, length-data_of b w, w.first_out, h) in
    (
      record {
        first_out = omega (arith, w.first_out);
        out_last = omega (arith, w.out_last);
        last_end = omega (arith, array_length, w.last_end);
      },
      ap₂ take count start ∙ take-length_append (data_of b ++ chunk) behind,
    )

moved-IsFlat :
    (n : ℕ) (b : FlatBuffer)
    → IsFlat b
    → n ≤ length b.array - (b.out - b.first)
    → IsFlat (record (moved b) { last = size b + n })
      × (data_of (record (moved b) { last = size b + n }) ≡ data_of b)
unfolding moved data_of size
moved-IsFlat n b w h =
    let long = length-data_of b w in
    let array_length : length (data_of b ++ drop (b.out - b.first) b.array) ≡ length b.array =
      omega (
        arith,
        long,
        length-append (data_of b) (drop (b.out - b.first) b.array),
        length-drop (b.out - b.first) b.array,
        w.first_out,
        w.out_last,
        w.last_end,
      ) in
    (
      record {
        first_out = omega arith;
        out_last = omega arith;
        last_end = omega (arith, array_length, h, w.first_out, w.out_last, w.last_end);
      },
      ap (λ k. take k (data_of b ++ drop (b.out - b.first) b.array)) (omega (arith, long))
          ∙ take-length_append (data_of b) (drop (b.out - b.first) b.array),
    )

drop_beyond : (n : ℕ) (xs : List ℕ) → length xs ≤ n → drop n xs ≡ []
drop_beyond n [] h = drop-nil n
drop_beyond zero (x ∷ xs) h = absurd (omega arith)
drop_beyond (suc n) (x ∷ xs) h = drop_beyond n xs (omega arith)

prepare-cases :
    (n : ℕ) (b : FlatBuffer)
    → IsFlat b
    → ((prepare n b ≡ throw length_error) × (capacity b < size b + n))
      ⊎ ((p : FlatBuffer) × (prepare n b ≡ ok p)
          × IsFlat p
          × (data_of p ≡ data_of b)
          × (n ≤ p.last - p.out))
unfolding prepare capacity size data_of moved
prepare-cases n b w = elim (Bool-cases (leb n (length b.array - b.out))) [
  | inl e ↦
      let fits : n ≤ length b.array - b.out = leb→le _ _ e in
      inr (
        record b { last = b.out + n },
        rw e refl,
        record {
          first_out = w.first_out;
          out_last = omega arith;
          last_end = omega (arith, fits, w.out_last, w.last_end);
        },
        refl,
        omega arith,
      )
  | inr e ↦ elim (Bool-cases (ltb (length b.array - (b.out - b.first)) n)) [
    | inl d ↦ inl (rw (e, d) refl, omega (arith, ltb→lt _ _ d, w.first_out))
    | inr d ↦
        let fits : n ≤ length b.array - (b.out - b.first) = ltb_false→le _ _ d in
        let (flat, same) = moved-IsFlat n b w fits in
        inr (_, rw (e, d) refl, flat, same, omega arith)
  ]
]

-- Receiving into a buffer whose positions are in order. Either `prepare` throws, and the bytes that are
-- held and those that are asked for exceed the capacity; or the bytes that the socket writes, no more
-- than were asked for, are appended to those that are held, moved or not, and the order is kept.
pub data_of-prepare :
    (n : ℕ) (chunk : List ℕ) (b : FlatBuffer)
    → IsFlat b
    → length chunk ≤ n
    → ((prepare n b ≡ throw length_error) × (capacity b < size b + n))
      ⊎ ((p : FlatBuffer) × (prepare n b ≡ ok p)
          × IsFlat (commit (length chunk) (fill chunk p))
          × (data_of (commit (length chunk) (fill chunk p)) ≡ data_of b ++ chunk))
data_of-prepare n chunk b w h = elim (prepare-cases n b w) [
  | inl e ↦ inl e
  | inr (p, e, flat, same, room) ↦
      let (after, held) = data_of-fill p chunk flat (omega (arith, h, room)) in
      inr (p, e, after, held ∙ ap (λ d. d ++ chunk) same)
]

-- Consuming bytes of a buffer whose positions are in order drops them from the front of those that are
-- held, and keeps the order.
pub data_of-consume :
    (n : ℕ) (b : FlatBuffer)
    → IsFlat b
    → IsFlat (consume n b) × (data_of (consume n b) ≡ drop n (data_of b))
unfolding consume data_of size
data_of-consume n b w = elim (Bool-cases (leb (b.out - b.first) n)) [
  | inl e ↦ rw e (
    record { first_out = omega arith; out_last = omega arith; last_end = w.last_end },
    sym (drop_beyond n (data_of b) (omega (arith, length-data_of b w, leb→le _ _ e))),
  )
  | inr e ↦ rw e (
    record {
      first_out = omega (arith, leb_false→lt _ _ e);
      out_last = w.out_last;
      last_end = w.last_end;
    },
    sym (
        drop-take n (b.out - b.first) (drop b.first b.array)
        ∙ ap₂ take {x = b.out - b.first - n} {y = b.out - (b.first + n)} (omega arith)
            (drop-drop n b.first b.array)),
  )
]

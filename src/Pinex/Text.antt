-- ===== src/Pinex/Text.antt =====
-- `std::string` as the list of its bytes: equality, order, and the source's literals.
use Prim.Native.Char.{code}
use Prim.Native.String.{String}
use smppgw.Base.{◌≡◌, ◌↔◌, refl, Bool, true, false, [], ◌∷◌, ltb, ◌==◌, ◌&&◌, if◌then◌else◌, arith}
use smppgw.Smpp.Byte.{Bytes}

-- The bytes of a text in ASCII.
abbrev pub codes : String → Bytes
codes String.[] = []
codes (String.◌∷◌ c s) = code c ∷ codes s

-- `operator==`.
unfoldable pub eq_text : Bytes → Bytes → Bool
eq_text [] [] = true
eq_text (a ∷ v) (b ∷ w) = a == b && eq_text v w
eq_text _ _ = false

-- `operator<`, which compares the bytes as unsigned.
unfoldable pub lt_text : Bytes → Bytes → Bool
lt_text [] [] = false
lt_text [] (b ∷ w) = true
lt_text (a ∷ v) [] = false
lt_text (a ∷ v) (b ∷ w) = if ltb a b then true else (a == b && lt_text v w)

pub eq_text_refl : (v : Bytes) → eq_text v v ≡ true
unfolding eq_text
eq_text_refl [] = refl
eq_text_refl (a ∷ v) = ground (arith, eq_text_refl v)

pub eq_text→eq : (v w : Bytes) → eq_text v w ≡ true → v ≡ w
unfolding eq_text
eq_text→eq [] [] h = refl
eq_text→eq [] (b ∷ w) h = cc
eq_text→eq (a ∷ v) [] h = cc
eq_text→eq (a ∷ v) (b ∷ w) h = ground (arith, eq_text→eq v w)

pub eq_text_iff : (v w : Bytes) → (eq_text v w ≡ true) ↔ (v ≡ w)
eq_text_iff v w = (eq_text→eq v w, λ e. rw e (eq_text_refl w))

pub lt_text_irrefl : (v : Bytes) → lt_text v v ≡ false
unfolding lt_text
lt_text_irrefl [] = refl
lt_text_irrefl (a ∷ v) = ground (arith, lt_text_irrefl v)

pub lt_text_trans : (u v w : Bytes) → lt_text u v ≡ true → lt_text v w ≡ true → lt_text u w ≡ true
unfolding lt_text
lt_text_trans [] [] w h k = k
lt_text_trans [] (b ∷ v) [] h k = cc
lt_text_trans [] (b ∷ v) (c ∷ w) h k = refl
lt_text_trans (a ∷ u) [] w h k = cc
lt_text_trans (a ∷ u) (b ∷ v) [] h k = cc
lt_text_trans (a ∷ u) (b ∷ v) (c ∷ w) h k = ground (arith, lt_text_trans u v w)

-- Of two different texts one is smaller.
pub lt_text_total : (u v : Bytes) → lt_text u v ≡ false → eq_text v u ≡ false → lt_text v u ≡ true
unfolding lt_text eq_text
lt_text_total [] [] h k = cc
lt_text_total [] (b ∷ v) h k = cc
lt_text_total (a ∷ u) [] h k = refl
lt_text_total (a ∷ u) (b ∷ v) h k = ground (arith, lt_text_total u v)

pub eq_text_comm : (v w : Bytes) → eq_text v w ≡ eq_text w v
unfolding eq_text
eq_text_comm [] [] = refl
eq_text_comm [] (b ∷ w) = refl
eq_text_comm (a ∷ v) [] = refl
eq_text_comm (a ∷ v) (b ∷ w) = ground (arith, eq_text_comm v w)

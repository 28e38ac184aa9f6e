-- ===== src/Smpp/Pdu.antt =====
-- The PDUs of libs/smpp/pdu: what each of them tells the templates of common/serialization.hpp, as a
-- record, and those templates over it. The structs themselves are in the children.
pub mod Requests
pub mod Responses
pub mod RoundTrip
use smppgw.Base.{ℕ, ◌≡◌, Bool, true, false, List, [], ◌∷◌, ◌&&◌, if◌then◌else◌}
use smppgw.Base.Results.{Result, ok, ◌>>=◌}
use smppgw.Smpp.Byte.{Bytes}
use smppgw.Smpp.Wire.{
  Codec, smart, Values, serialize_members, deserialize_members, SmartLast, AllFit,
}

-- A list of members that writes a byte at least.
abbrev pub Writes : List Codec → Type 0
Writes [] = ⊥
Writes (smart ∷ cs) = ⊥
Writes (_ ∷ cs) = Unit {0}

-- `members<PDU>`, `can_be_omitted<PDU>`, `is_response<PDU>` and `command_id_of`. `Args` are the
-- arguments that `deserialize<PDU>(buf, args...)` passes on to the struct, and `omitted` is
-- `PDU{ args... }`. The last five fields are laws.
pub record Pdu (Args P : Type 0) : Type 0 where
  pub members : List Codec
  pub values : P → Values members
  pub args : P → Args
  pub make : Args → Values members → P
  pub omitted : Args → P
  pub can_be_omitted : Bool
  pub is_response : Bool
  pub command_id_of : P → ℕ
  pub make-values : (p : P) → make (args p) (values p) ≡ p
  pub values-make : (a : Args) (vs : Values members) → values (make a vs) ≡ vs
  pub omitted_fits : (a : Args) → AllFit members (values (omitted a))
  pub smart_last : SmartLast members
  pub writes : can_be_omitted ≡ true → Writes members

abbrev pub is_empty : Bytes → Bool
is_empty [] = true
is_empty (b ∷ buf) = false

module _ {Args P : Type 0} (pdu : Pdu Args P) where
  unfoldable pub serialize_to : Bytes → P → Result Bytes
  serialize_to vec p = serialize_members pdu.members vec (pdu.values p)

  unfoldable pub deserialize : Bytes → Args → Result P
  deserialize buf args =
      if pdu.can_be_omitted && is_empty buf
      then ok (pdu.omitted args)
      else (deserialize_members pdu.members buf >>= λ r. ok (pdu.make args r.0))

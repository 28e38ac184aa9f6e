-- ===== src/Routing/Matcher/Extended.antt =====
-- The routes that a matcher stands for once `add_rule` has numbered one more.
use smppgw.Base.{
  ℕ, suc, ◌≡◌, refl, ap, sym, ◌∙◌, false, [], ◌∷◌, ◌++◌, none, some, ◌==◌, if◌then◌else◌, arith,
  Bool-cases, inl, inr,
}
use smppgw.Smpp.Byte.{Bytes}
use smppgw.Routing.Matcher.{RoutingInfo}
use smppgw.Routing.Matcher.Table.{Table, is_route, Ascends, numbers, Differs, target_of}

-- One more route, with a number above the others and an identifier of its own.
module _ (number : ℕ) (info : RoutingInfo) where
  abbrev pub with_route : Table → Table
  with_route table = table ++ ((number, info) ∷ [])

  pub numbers-with_route :
      (table : Table) → numbers (with_route table) ≡ numbers table ++ ((number, info.info_id) ∷ [])
  numbers-with_route [] = refl
  numbers-with_route (e ∷ table) = ap (λ l. (e.0, e.1.info_id) ∷ l) (numbers-with_route table)

  pub Ascends-with_route :
      (lo : ℕ) (table : Table)
      → Ascends lo number table
      → Ascends lo (suc number) (with_route table)
  Ascends-with_route lo [] h = (h, omega arith)
  Ascends-with_route lo (e ∷ table) h = (h.0, Ascends-with_route (suc e.0) table h.1)

  pub is_route-none :
      (table : Table) → target_of info.info_id table ≡ none → is_route info.info_id table ≡ false
  is_route-none [] e = refl
  is_route-none (e ∷ table) absent = elim (Bool-cases (e.1.info_id == info.info_id)) [
    | inl same ↦
        (let target : Bytes × ℕ = (e.1.info_target, e.1.info_priority) in
          let found =
            sym (ap (λ b. if b then some target else target_of info.info_id table) same) ∙ absent in
          cc)
    | inr other ↦ rw other (
        is_route-none table (
          sym (
            ap
              (λ b.
                if b
                then some (e.1.info_target, e.1.info_priority)
                else target_of info.info_id table)
              other)
          ∙ absent))
  ]

  pub target_of-with_route :
      (table : Table) (id : ℕ)
      → is_route info.info_id table ≡ false
      → target_of id (with_route table) ≡ (
          if info.info_id == id
          then some (info.info_target, info.info_priority)
          else target_of id table)
  target_of-with_route [] id absent = refl
  target_of-with_route (e ∷ table) id absent =
      let apart : (e.1.info_id == info.info_id) ≡ false = ground (arith, absent) in
      let rest = target_of-with_route table id (ground (arith, absent)) in
      elim (Bool-cases (e.1.info_id == id)) [
        | inl same ↦
            let other : (info.info_id == id) ≡ false = ground (arith, same, apart) in
            rw (same, other) refl
        | inr other ↦ rw (other, rest) refl
      ]

  is_route-with_route :
      (table : Table) (id : ℕ)
      → is_route id table ≡ false
      → (info.info_id == id) ≡ false
      → is_route id (with_route table) ≡ false
  is_route-with_route [] id absent other = rw other refl
  is_route-with_route (e ∷ table) id absent other =
      ground (arith, absent, other, is_route-with_route table id)

  pub Differs-with_route :
      (table : Table)
      → is_route info.info_id table ≡ false
      → Differs table
      → Differs (with_route table)
  Differs-with_route [] absent h = (refl, tt)
  Differs-with_route (e ∷ table) absent h = (
    is_route-with_route table e.1.info_id h.0 (ground (arith, absent)),
    Differs-with_route table (ground (arith, absent)) h.1,
  )

-- ===== src/EtfArb/Numbered.antt =====
-- The ids of the orders of `run` of etf_arb.cpp, operation by operation.
use hftalgorithms.Base.{ℕ, true, false, List, [], ◌∷◌}
use hftalgorithms.Base.Int.{ℤ}
use hftalgorithms.Base.Double.{Double}
use hftalgorithms.Messages.{Side}
use hftalgorithms.Symbols.Nav.{DormData}
use hftalgorithms.EtfArb.{position_of, flatten, is_flat}
use hftalgorithms.EtfArb.Trades.{
  collect, unwind_dorm, unwind_sends, unwind_dorm_longs, send_legs, all_filled, book_creation,
  book_redemption,
}
use hftalgorithms.EtfArb.Loops.{sell_rest}
use hftalgorithms.EtfArb.Numbers.{
  KeepsIds, >>=-KeepsIds, if-KeepsIds, pure-KeepsIds, for_each-KeepsIds, reading-KeepsIds,
  keep_rules,
}
use hftalgorithms.EtfArb.Sending.{waiting-KeepsIds, place_no_wait-KeepsIds, place-KeepsIds}

module _ {D : Type 0} ⦃d : Double D⦄ where
  pub position-KeepsIds : (id : ℕ) → KeepsIds {D = D} (position_of id)
  unfolding position_of
  position-KeepsIds id = reading-KeepsIds _

  pub flatten-KeepsIds : (id : ℕ) → KeepsIds {D = D} (flatten id)
  unfolding flatten
  flatten-KeepsIds id = search (keep_rules, position-KeepsIds, place-KeepsIds) depth 12

  pub is_flat-KeepsIds : (js : List ℕ) → KeepsIds {D = D} (is_flat js)
  unfolding is_flat
  is_flat-KeepsIds [] = pure-KeepsIds true
  is_flat-KeepsIds (id ∷ js) =
      >>=-KeepsIds (position-KeepsIds id)
        (λ position. if-KeepsIds _ (is_flat-KeepsIds js) (pure-KeepsIds false))

  pub collect-KeepsIds : (oids : List ℕ) (acked : ℕ) → KeepsIds {D = D} (collect oids acked)
  unfolding collect
  collect-KeepsIds [] acked = search keep_rules
  collect-KeepsIds (oid ∷ oids) acked = search (keep_rules, waiting-KeepsIds, collect-KeepsIds oids)

  pub unwind_dorm-KeepsIds : (id : ℕ) (sent : List ℕ) → KeepsIds {D = D} (unwind_dorm id sent)
  unfolding unwind_dorm
  unwind_dorm-KeepsIds id sent =
      search (keep_rules, position-KeepsIds, place_no_wait-KeepsIds) depth 16

  pub unwind_sends-KeepsIds : (js sent : List ℕ) → KeepsIds {D = D} (unwind_sends js sent)
  unfolding unwind_sends
  unwind_sends-KeepsIds [] sent = search keep_rules
  unwind_sends-KeepsIds (id ∷ js) sent =
      >>=-KeepsIds (unwind_dorm-KeepsIds id sent) (λ s. unwind_sends-KeepsIds js s)

  pub unwind_dorm_longs-KeepsIds : KeepsIds {D = D} unwind_dorm_longs
  unfolding unwind_dorm_longs
  unwind_dorm_longs-KeepsIds = search (keep_rules, unwind_sends-KeepsIds, collect-KeepsIds) depth 8

  pub send_legs-KeepsIds :
      (side : Side) (qty : ℤ) (price : DormData → ℤ) (js : List ℕ) (xs : List DormData)
      → KeepsIds {D = D} (send_legs side qty price js xs)
  unfolding send_legs
  send_legs-KeepsIds side qty price [] xs = search keep_rules
  send_legs-KeepsIds side qty price (id ∷ js) [] = search keep_rules
  send_legs-KeepsIds side qty price (id ∷ js) (x ∷ xs) =
      >>=-KeepsIds (place_no_wait-KeepsIds id side _ _) (λ oid.
        >>=-KeepsIds (send_legs-KeepsIds side qty price js xs) (λ oids. pure-KeepsIds (oid ∷ oids)))

  pub all_filled-KeepsIds : (js : List ℕ) (qty : ℤ) → KeepsIds {D = D} (all_filled js qty)
  unfolding all_filled
  all_filled-KeepsIds [] qty = search keep_rules
  all_filled-KeepsIds (id ∷ js) qty =
      search (keep_rules, position-KeepsIds, all_filled-KeepsIds js) depth 8

  pub book_creation-KeepsIds : (qty price : ℤ) → KeepsIds {D = D} (book_creation qty price)
  unfolding book_creation
  book_creation-KeepsIds qty price = search (keep_rules, for_each-KeepsIds) depth 9

  pub book_redemption-KeepsIds : (qty price : ℤ) → KeepsIds {D = D} (book_redemption qty price)
  unfolding book_redemption
  book_redemption-KeepsIds qty price = search (keep_rules, for_each-KeepsIds) depth 9

  pub sell_rest-KeepsIds : KeepsIds {D = D} sell_rest
  unfolding sell_rest
  sell_rest-KeepsIds = search (keep_rules, position-KeepsIds, place-KeepsIds) depth 12

-- ===== src/EtfArb/Runs.antt =====
-- The rules of `Safe` through the trades and the loops of etf_arb.cpp.
use hftalgorithms.Base.{ℕ, zero, suc, ◌≡◌, refl, true, false, some, List, [], ◌∷◌, All, arith}
use hftalgorithms.Base.Int.{ℤ}
use hftalgorithms.Base.Double.{Double}
use hftalgorithms.Messages.{Side}
use hftalgorithms.Symbols.{SymbolManager, dorm_ids, sym_undy, ids}
use hftalgorithms.Symbols.Cache.{IsReady, IsListed}
use hftalgorithms.Symbols.Nav.{
  ArbSnapshot, DormData, DormSums, snapshot, read_dorms, add_dorm, read_slot, no_sums,
}
use hftalgorithms.EtfArb.{World, reading, flatten}
use hftalgorithms.EtfArb.Trades.{
  collect, unwind_dorm, unwind_sends, unwind_dorm_longs, send_legs, all_filled, book_creation,
  book_redemption, await_fills, sell_undy, create_and_sell, creation_arb, try_creation_arb,
  redeem_and_sell, redemption_arb, try_redemption_arb,
}
use hftalgorithms.EtfArb.Loops.{
  near_limit, cancel_all, sell_rest, go_dormant, check_timeout, look, round, run,
}
use hftalgorithms.EtfArb.Safe.{
  IsSafe, IsFair, safe_rules, >>=-IsSafe, >>-IsSafe, pure-IsSafe, if-IsSafe, All-IsListed,
  for_each-IsSafe, reading-IsSafe, cached-IsSafe,
}
use hftalgorithms.EtfArb.Basic.{
  position-IsSafe, place-IsSafe, place_no_wait-IsSafe, entering-IsSafe, booked-IsSafe,
  is_flat-IsSafe, flatten-IsSafe, now-IsSafe, pause-IsSafe, await_flat-IsSafe,
}

pub dorms-IsListed : All IsListed dorm_ids
dorms-IsListed = All-IsListed dorm_ids refl

pub ids-IsListed : All IsListed ids
ids-IsListed = All-IsListed ids refl

pub undy-IsListed : IsListed sym_undy
undy-IsListed = (omega arith, omega arith)

module _ {D : Type 0} ⦃d : Double D⦄ where
  collect-IsSafe : (oids : List ℕ) (acked : ℕ) → IsSafe {D = D} (collect oids acked)
  unfolding collect
  collect-IsSafe [] acked = search safe_rules
  collect-IsSafe (oid ∷ oids) acked = search (safe_rules, entering-IsSafe, collect-IsSafe oids)

  unwind_dorm-IsSafe : (id : ℕ) (sent : List ℕ) → IsListed id → IsSafe {D = D} (unwind_dorm id sent)
  unfolding unwind_dorm
  unwind_dorm-IsSafe id sent h = search (safe_rules, position-IsSafe, place_no_wait-IsSafe) depth 16

  unwind_sends-IsSafe : (js sent : List ℕ) → All IsListed js → IsSafe {D = D} (unwind_sends js sent)
  unfolding unwind_sends
  unwind_sends-IsSafe [] sent h = search safe_rules
  unwind_sends-IsSafe (id ∷ js) sent h =
      >>=-IsSafe (unwind_dorm-IsSafe id sent h.0) (λ s. unwind_sends-IsSafe js s h.1)

  unwind_dorm_longs-IsSafe : IsSafe {D = D} unwind_dorm_longs
  unfolding unwind_dorm_longs
  unwind_dorm_longs-IsSafe =
      >>=-IsSafe (unwind_sends-IsSafe dorm_ids [] dorms-IsListed)
        (λ sent. >>=-IsSafe (collect-IsSafe sent 0) (λ _. pure-IsSafe tt))

  send_legs-IsSafe :
      (side : Side) (qty : ℤ) (price : DormData → ℤ) (js : List ℕ) (xs : List DormData)
      → All IsListed js
      → IsSafe {D = D} (send_legs side qty price js xs)
  unfolding send_legs
  send_legs-IsSafe side qty price [] xs h = search safe_rules
  send_legs-IsSafe side qty price (id ∷ js) [] h = search safe_rules
  send_legs-IsSafe side qty price (id ∷ js) (x ∷ xs) h =
      >>=-IsSafe (place_no_wait-IsSafe id side _ _ h.0) (λ oid.
        >>=-IsSafe (send_legs-IsSafe side qty price js xs h.1) (λ oids. pure-IsSafe (oid ∷ oids)))

  all_filled-IsSafe : (js : List ℕ) (qty : ℤ) → All IsListed js → IsSafe {D = D} (all_filled js qty)
  unfolding all_filled
  all_filled-IsSafe [] qty h = search safe_rules
  all_filled-IsSafe (id ∷ js) qty h =
      >>=-IsSafe (position-IsSafe id h.0)
        (λ position. >>=-IsSafe (all_filled-IsSafe js qty h.1) (λ others. pure-IsSafe _))

  book_creation-IsSafe : (qty price : ℤ) → IsSafe {D = D} (book_creation qty price)
  unfolding book_creation
  book_creation-IsSafe qty price =
      search (safe_rules, for_each-IsSafe, booked-IsSafe, dorms-IsListed, undy-IsListed) depth 9

  book_redemption-IsSafe : (qty price : ℤ) → IsSafe {D = D} (book_redemption qty price)
  unfolding book_redemption
  book_redemption-IsSafe qty price =
      search (safe_rules, for_each-IsSafe, booked-IsSafe, dorms-IsListed, undy-IsListed) depth 9

  snapshot_taken :
      (js : List ℕ) (m : SymbolManager D) (sums : DormSums)
      → All IsListed js
      → IsReady m
      → (out : DormSums) × (read_dorms js m sums ≡ some out)
  unfolding read_dorms
  snapshot_taken [] m sums h r = (sums, refl)
  snapshot_taken (id ∷ js) m sums h r =
      let (s, e) = r.present id h.0 in
      let (out, e') = snapshot_taken js m (add_dorm (read_slot s) sums) h.1 r in
      (out, rw (e, read_dorms) e')

  snapshot-IsSafe : IsSafe {D = D} (reading snapshot)
  unfolding snapshot
  snapshot-IsSafe = reading-IsSafe snapshot λ m r.
      let (sums, e) = snapshot_taken dorm_ids m no_sums dorms-IsListed r in
      let (s, e') = r.present sym_undy undy-IsListed in
      (record { sums = sums; undy = read_slot s }, rw (e, e', snapshot) refl)

  pub cancel_all-IsSafe : IsSafe {D = D} cancel_all
  unfolding cancel_all
  cancel_all-IsSafe = entering-IsSafe _

  sell_rest-IsSafe : IsSafe {D = D} sell_rest
  unfolding sell_rest
  sell_rest-IsSafe = search (safe_rules, position-IsSafe, place-IsSafe, undy-IsListed) depth 12

module _ {D : Type 0} ⦃d : Double D⦄ (w : World) (fair : IsFair w) where
  await_fills-IsSafe :
      (fuel deadline : ℕ) (qty : ℤ) → IsSafe {D = D} (await_fills w fuel deadline qty)
  unfolding await_fills
  await_fills-IsSafe zero deadline qty = record { ends = λ b s. tt }
  await_fills-IsSafe (suc fuel) deadline qty =
      >>=-IsSafe (all_filled-IsSafe dorm_ids qty dorms-IsListed) (λ filled.
        if-IsSafe filled (pure-IsSafe true) (
          >>=-IsSafe (now-IsSafe w fair) (λ time.
            if-IsSafe _ (pure-IsSafe false)
              (>>-IsSafe (pause-IsSafe w fair) (await_fills-IsSafe fuel deadline qty)))))

  sell_undy-IsSafe :
      (fuel : ℕ) (position : ℤ) (attempts : ℕ) → IsSafe {D = D} (sell_undy w fuel position attempts)
  unfolding sell_undy
  sell_undy-IsSafe zero position attempts = record { ends = λ b s. tt }
  sell_undy-IsSafe (suc fuel) position attempts =
      if-IsSafe _
        (if-IsSafe _
          (>>=-IsSafe (cached-IsSafe _ sym_undy undy-IsListed) (λ bid.
            if-IsSafe _
              (>>-IsSafe (pause-IsSafe w fair) (
                >>=-IsSafe (position-IsSafe sym_undy undy-IsListed)
                  (λ left. sell_undy-IsSafe fuel left attempts)))
              (>>=-IsSafe (place-IsSafe sym_undy _ _ bid undy-IsListed) (λ _.
                >>-IsSafe (pause-IsSafe w fair) (
                  >>=-IsSafe (position-IsSafe sym_undy undy-IsListed)
                    (λ left. sell_undy-IsSafe fuel left _))))))
          (pure-IsSafe tt))
        (pure-IsSafe tt)

  create_and_sell-IsSafe :
      (fuel : ℕ) (qty : ℤ) (snap : ArbSnapshot) → IsSafe {D = D} (create_and_sell w fuel qty snap)
  unfolding create_and_sell
  create_and_sell-IsSafe fuel qty snap =
      search
        (
          safe_rules, book_creation-IsSafe, position-IsSafe, undy-IsListed, sell_undy-IsSafe,
          unwind_dorm_longs-IsSafe,
        )
        depth 12

  creation_arb-IsSafe :
      (fuel : ℕ) (qty : ℤ) (snap : ArbSnapshot) → IsSafe {D = D} (creation_arb w fuel qty snap)
  unfolding creation_arb
  creation_arb-IsSafe fuel qty snap =
      search
        (
          safe_rules,
          now-IsSafe w fair,
          send_legs-IsSafe,
          dorms-IsListed,
          collect-IsSafe,
          unwind_dorm_longs-IsSafe,
          await_fills-IsSafe,
          create_and_sell-IsSafe,
        )
        depth 16

  try_creation_arb-IsSafe :
      (fuel : ℕ) (snap : ArbSnapshot) → IsSafe {D = D} (try_creation_arb w fuel snap)
  unfolding try_creation_arb
  try_creation_arb-IsSafe fuel snap = search (safe_rules, creation_arb-IsSafe) depth 12

  redeem_and_sell-IsSafe :
      (qty : ℤ) (snap : ArbSnapshot) → IsSafe {D = D} (redeem_and_sell w qty snap)
  unfolding redeem_and_sell
  redeem_and_sell-IsSafe qty snap =
      search (safe_rules, book_redemption-IsSafe, send_legs-IsSafe, dorms-IsListed, collect-IsSafe)
        depth 12

  redemption_arb-IsSafe :
      (qty : ℤ) (snap : ArbSnapshot) → IsSafe {D = D} (redemption_arb w qty snap)
  unfolding redemption_arb
  redemption_arb-IsSafe qty snap =
      search
        (
          safe_rules,
          now-IsSafe w fair,
          place-IsSafe,
          undy-IsListed,
          entering-IsSafe,
          redeem_and_sell-IsSafe,
        )
        depth 16

  try_redemption_arb-IsSafe : (snap : ArbSnapshot) → IsSafe {D = D} (try_redemption_arb w snap)
  unfolding try_redemption_arb
  try_redemption_arb-IsSafe snap = search (safe_rules, redemption_arb-IsSafe) depth 12

  go_dormant-IsSafe : (fuel : ℕ) → IsSafe {D = D} (go_dormant w fuel)
  unfolding go_dormant
  go_dormant-IsSafe fuel =
      search
        (
          safe_rules,
          cancel_all-IsSafe,
          for_each-IsSafe ids flatten ids-IsListed flatten-IsSafe,
          await_flat-IsSafe w fair,
        )
        depth 12

  pub check_timeout-IsSafe : IsSafe {D = D} (check_timeout w)
  unfolding check_timeout
  check_timeout-IsSafe =
      search (safe_rules, now-IsSafe w fair, unwind_dorm_longs-IsSafe, sell_rest-IsSafe) depth 12

  pub look-IsSafe : (fuel : ℕ) → IsSafe {D = D} (look w fuel)
  unfolding look
  look-IsSafe fuel =
      search (safe_rules, snapshot-IsSafe, try_creation_arb-IsSafe, try_redemption_arb-IsSafe) depth
        12

  round-IsSafe : (fuel : ℕ) → IsSafe {D = D} (round w fuel)
  unfolding round near_limit
  round-IsSafe fuel =
      search
        (
          safe_rules,
          go_dormant-IsSafe,
          is_flat-IsSafe dorm_ids dorms-IsListed,
          is_flat-IsSafe (sym_undy ∷ []) (undy-IsListed, tt),
          check_timeout-IsSafe,
          look-IsSafe,
        )
        depth 16

  run-IsSafe : (fuel rounds : ℕ) → IsSafe {D = D} (run w fuel rounds)
  unfolding run
  run-IsSafe fuel zero = pure-IsSafe tt
  run-IsSafe fuel (suc rounds) =
      >>-IsSafe (round-IsSafe fuel) (>>-IsSafe (pause-IsSafe w fair) (run-IsSafe fuel rounds))

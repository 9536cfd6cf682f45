-- ===== src/EtfArb/Issued.antt =====
-- The ids of the orders of `run` of etf_arb.cpp, for its arbitrages and its rounds.
use hftalgorithms.Base.{ℕ, zero, suc, ◌+◌, refl, true, false}
use hftalgorithms.Base.Int.{ℤ}
use hftalgorithms.Base.Double.{Double}
use hftalgorithms.Symbols.{dorm_ids, sym_undy, ids, read_best_bid_price}
use hftalgorithms.Symbols.Nav.{ArbSnapshot}
use hftalgorithms.EtfArb.{Bot, World, sets, flatten, now, pause, await_flat}
use hftalgorithms.EtfArb.Trades.{
  await_fills, sell_undy, create_and_sell, creation_arb, try_creation_arb, redeem_and_sell,
  redemption_arb, try_redemption_arb,
}
use hftalgorithms.EtfArb.Loops.{near_limit, cancel_all, go_dormant, check_timeout, look, round, run}
use hftalgorithms.EtfArb.Numbers.{
  AreGrowing, EndsGrowing, KeepsIds, >>=-KeepsIds, >>-KeepsIds, if-KeepsIds, pure-KeepsIds,
  sets-KeepsIds, for_each-KeepsIds, reading-KeepsIds, keep_rules,
}
use hftalgorithms.EtfArb.Sending.{fill_waiting-KeepsIds, cancelling-KeepsIds, place-KeepsIds}
use hftalgorithms.EtfArb.Numbered.{
  position-KeepsIds, flatten-KeepsIds, is_flat-KeepsIds, collect-KeepsIds,
  unwind_dorm_longs-KeepsIds, send_legs-KeepsIds, all_filled-KeepsIds, book_creation-KeepsIds,
  book_redemption-KeepsIds, sell_rest-KeepsIds,
}

module _ {D : Type 0} ⦃d : Double D⦄ (w : World) where
  now-KeepsIds : KeepsIds {D = D} (now w)
  unfolding now
  now-KeepsIds = record { ends = λ lo b s. s }

  pauses-KeepsIds : KeepsIds {D = D} (sets λ b. record b { pauses = b.pauses + 1 })
  pauses-KeepsIds = sets-KeepsIds _ (λ b. (refl, refl))

  pause-KeepsIds : KeepsIds {D = D} (pause w)
  unfolding pause
  pause-KeepsIds = search (keep_rules, pauses-KeepsIds)

  await_flat-KeepsIds : (fuel : ℕ) → KeepsIds {D = D} (await_flat w fuel)
  unfolding await_flat
  await_flat-KeepsIds zero = record { ends = λ lo b s. tt }
  await_flat-KeepsIds (suc fuel) = >>=-KeepsIds (is_flat-KeepsIds ids) (λ flat.
      if-KeepsIds flat (pure-KeepsIds tt) (>>-KeepsIds pause-KeepsIds (await_flat-KeepsIds fuel)))

  await_fills-KeepsIds :
      (fuel deadline : ℕ) (qty : ℤ) → KeepsIds {D = D} (await_fills w fuel deadline qty)
  unfolding await_fills
  await_fills-KeepsIds zero deadline qty = record { ends = λ lo b s. tt }
  await_fills-KeepsIds (suc fuel) deadline qty =
      >>=-KeepsIds (all_filled-KeepsIds dorm_ids qty) (λ filled.
        if-KeepsIds filled (pure-KeepsIds true) (
          >>=-KeepsIds now-KeepsIds (λ time.
            if-KeepsIds _ (pure-KeepsIds false)
              (>>-KeepsIds pause-KeepsIds (await_fills-KeepsIds fuel deadline qty)))))

  sell_undy-KeepsIds :
      (fuel : ℕ) (position : ℤ) (attempts : ℕ)
      → KeepsIds {D = D} (sell_undy w fuel position attempts)
  unfolding sell_undy
  sell_undy-KeepsIds zero position attempts = record { ends = λ lo b s. tt }
  sell_undy-KeepsIds (suc fuel) position attempts =
      if-KeepsIds _
        (if-KeepsIds _
          (>>=-KeepsIds (reading-KeepsIds (read_best_bid_price sym_undy)) (λ bid.
            if-KeepsIds _
              (>>-KeepsIds pause-KeepsIds (
                >>=-KeepsIds (position-KeepsIds sym_undy)
                  (λ left. sell_undy-KeepsIds fuel left attempts)))
              (>>=-KeepsIds (place-KeepsIds sym_undy _ _ bid) (λ _. >>-KeepsIds pause-KeepsIds (
                >>=-KeepsIds (position-KeepsIds sym_undy)
                  (λ left. sell_undy-KeepsIds fuel left _))))))
          (pure-KeepsIds tt))
        (pure-KeepsIds tt)

  create_and_sell-KeepsIds :
      (fuel : ℕ) (qty : ℤ) (snap : ArbSnapshot) → KeepsIds {D = D} (create_and_sell w fuel qty snap)
  unfolding create_and_sell
  create_and_sell-KeepsIds fuel qty snap =
      search
        (
          keep_rules, book_creation-KeepsIds, position-KeepsIds, sell_undy-KeepsIds,
          unwind_dorm_longs-KeepsIds,
        )
        depth 12

  creation_arb-KeepsIds :
      (fuel : ℕ) (qty : ℤ) (snap : ArbSnapshot) → KeepsIds {D = D} (creation_arb w fuel qty snap)
  unfolding creation_arb
  creation_arb-KeepsIds fuel qty snap =
      search
        (
          keep_rules, now-KeepsIds, send_legs-KeepsIds, collect-KeepsIds,
          unwind_dorm_longs-KeepsIds, await_fills-KeepsIds, create_and_sell-KeepsIds,
        )
        depth 16

  try_creation_arb-KeepsIds :
      (fuel : ℕ) (snap : ArbSnapshot) → KeepsIds {D = D} (try_creation_arb w fuel snap)
  unfolding try_creation_arb
  try_creation_arb-KeepsIds fuel snap = search (keep_rules, creation_arb-KeepsIds) depth 12

  redeem_and_sell-KeepsIds :
      (qty : ℤ) (snap : ArbSnapshot) → KeepsIds {D = D} (redeem_and_sell w qty snap)
  unfolding redeem_and_sell
  redeem_and_sell-KeepsIds qty snap =
      search (keep_rules, book_redemption-KeepsIds, send_legs-KeepsIds, collect-KeepsIds) depth 12

  redemption_arb-KeepsIds :
      (qty : ℤ) (snap : ArbSnapshot) → KeepsIds {D = D} (redemption_arb w qty snap)
  unfolding redemption_arb
  redemption_arb-KeepsIds qty snap =
      search
        (keep_rules, now-KeepsIds, place-KeepsIds, fill_waiting-KeepsIds, redeem_and_sell-KeepsIds)
        depth 16

  try_redemption_arb-KeepsIds : (snap : ArbSnapshot) → KeepsIds {D = D} (try_redemption_arb w snap)
  unfolding try_redemption_arb
  try_redemption_arb-KeepsIds snap = search (keep_rules, redemption_arb-KeepsIds) depth 12

  go_dormant-KeepsIds : (fuel : ℕ) → KeepsIds {D = D} (go_dormant w fuel)
  unfolding go_dormant cancel_all
  go_dormant-KeepsIds fuel =
      search
        (
          keep_rules,
          cancelling-KeepsIds,
          for_each-KeepsIds ids flatten flatten-KeepsIds,
          await_flat-KeepsIds,
        )
        depth 12

  check_timeout-KeepsIds : KeepsIds {D = D} (check_timeout w)
  unfolding check_timeout
  check_timeout-KeepsIds =
      search (keep_rules, now-KeepsIds, unwind_dorm_longs-KeepsIds, sell_rest-KeepsIds) depth 12

  look-KeepsIds : (fuel : ℕ) → KeepsIds {D = D} (look w fuel)
  unfolding look
  look-KeepsIds fuel =
      search (keep_rules, try_creation_arb-KeepsIds, try_redemption_arb-KeepsIds) depth 12

  round-KeepsIds : (fuel : ℕ) → KeepsIds {D = D} (round w fuel)
  unfolding round near_limit
  round-KeepsIds fuel =
      search
        (keep_rules, go_dormant-KeepsIds, is_flat-KeepsIds, check_timeout-KeepsIds, look-KeepsIds)
        depth 16

  run-KeepsIds : (fuel rounds : ℕ) → KeepsIds {D = D} (run w fuel rounds)
  unfolding run
  run-KeepsIds fuel zero = pure-KeepsIds tt
  run-KeepsIds fuel (suc rounds) =
      >>-KeepsIds (round-KeepsIds fuel) (>>-KeepsIds pause-KeepsIds (run-KeepsIds fuel rounds))

  -- Where `run` ends, the ids of all the new orders that the bot has sent grow from the first to the
  -- last and are below its next id, if they were so before: no id is given to two orders, whatever the
  -- feed, the exchange, the service and the clock do.
  pub run-EndsGrowing :
      (fuel rounds lo : ℕ) (b : Bot D)
      → AreGrowing lo b.oe.sent b.next_order_id
      → EndsGrowing lo (run w fuel rounds b)
  run-EndsGrowing fuel rounds lo b h = (run-KeepsIds fuel rounds).ends lo b h

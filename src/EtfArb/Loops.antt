-- ===== src/EtfArb/Loops.antt =====
-- The loops `run` and `run_with_mm` of etf_arb.cpp, round by round.
use hftalgorithms.Base.{ℕ, zero, suc, ◌-◌, Bool, false, [], ◌∷◌, ◌&&◌, if◌then◌else◌, ltb}
use hftalgorithms.Base.Int.{pos, ltb_ℤ, u32_of}
use hftalgorithms.Base.Double.{Double}
use hftalgorithms.Messages.{sell}
use hftalgorithms.OrderEntry.{cancel_all_live_orders}
use hftalgorithms.Symbols.{ids, dorm_ids, sym_undy, pnl_near_limit, read_best_bid_price}
use hftalgorithms.Symbols.Nav.{snapshot}
use hftalgorithms.EtfArb.{
  M, World, ◌>>=◌, ◌>>◌, pure, asks, reading, for_each, entering, position_of, place, flatten,
  is_flat, now, pause, await_flat,
}
use hftalgorithms.EtfArb.Trades.{
  unwind_dorm_longs, try_creation_arb, try_redemption_arb, set_in_progress,
}

module _ {D : Type 0} ⦃d : Double D⦄ where
  unfoldable pub near_limit : M D Bool
  near_limit = asks λ b. pnl_near_limit b.sm

  unfoldable pub cancel_all : M D (Unit {0})
  cancel_all = entering λ c. (tt, cancel_all_live_orders c)

  -- The sale of what UNDY is left when an arbitrage has timed out.
  unfoldable pub sell_rest : M D (Unit {0})
  sell_rest = do
    position ← position_of sym_undy
    bid ← reading (read_best_bid_price sym_undy)
    if ltb_ℤ (pos 0) position
        then if ltb_ℤ (pos 0) bid
          then (do _ ← place sym_undy sell (u32_of position) bid; pure tt)
          else pure tt
        else pure tt

module _ {D : Type 0} ⦃d : Double D⦄ (w : World) where
  -- The guard that unwinds every position and waits.
  unfoldable pub go_dormant : ℕ → M D (Unit {0})
  go_dormant fuel = do cancel_all; for_each ids flatten; await_flat w fuel

  -- A timeout after 3 seconds.
  unfoldable pub check_timeout : M D (Unit {0})
  check_timeout = do
    time ← now w
    start ← asks λ b. b.arb_start_time
    if ltb 3000 (time - start)
        then (do unwind_dorm_longs; sell_rest; set_in_progress false)
        else pure tt

  -- The part that looks for an opportunity.
  unfoldable pub look : ℕ → M D (Unit {0})
  look fuel = do
    snap ← reading snapshot
    traded ← try_creation_arb w fuel snap
    if traded then pure tt else do _ ← try_redemption_arb w snap; pure tt

  -- A round of `run`.
  unfoldable pub round : ℕ → M D (Unit {0})
  round fuel = do
    near ← near_limit
    if near then go_dormant fuel else do
      busy ← asks λ b. b.arb_in_progress
      if busy
          then (do
            dorms_flat ← is_flat dorm_ids
            undy_flat ← is_flat (sym_undy ∷ [])
            if dorms_flat && undy_flat then set_in_progress false else check_timeout)
          else look fuel

  -- `run` while `running_` stays true, for a number of rounds; the feed goes on between them.
  unfoldable pub run : ℕ → ℕ → M D (Unit {0})
  run fuel zero = pure tt
  run fuel (suc rounds) = do round fuel; pause w; run fuel rounds

-- ===== src/EtfArb/Market.antt =====
-- `run_with_mm` of etf_arb.cpp: the loop that also makes a market in BLUE.
use hftalgorithms.Base.{
  ℕ, zero, suc, ◌+◌, ◌*◌, ◌/◌, ◌%◌, ◌||◌, Bool, true, false, List, [], ◌∷◌, ◌==◌, ◌&&◌,
  if◌then◌else◌,
}
use hftalgorithms.Base.Int.{
  ℤ, pos, negsuc, ◌+ℤ◌, ◌-ℤ◌, sub_ℕ, ltb_ℤ, leb_ℤ, eqb_ℤ, u32_of, i32_of, wrap32, neg_i32, u32_mod,
}
use hftalgorithms.Base.Double.{Double}
use hftalgorithms.Base.Dict.{insert}
use hftalgorithms.Messages.{Side, buy, sell}
use hftalgorithms.OrderEntry.{send_new_order, delete_order_by_id}
use hftalgorithms.Symbols.{ids, dorm_ids, sym_undy, read_best_bid_price, read_best_ask_price}
use hftalgorithms.EtfArb.{
  M, World, fault, ◌>>=◌, ◌>>◌, pure, asks, sets, reading, for_each, entering, position_of, flatten,
  is_flat, pause, await_flat,
}
use hftalgorithms.EtfArb.Trades.{set_in_progress}
use hftalgorithms.EtfArb.Loops.{near_limit, cancel_all, check_timeout, look}

-- The variables of the loop, less the ids of the quotes, which are the bot's.
pub record Quotes : Type 0 where
  pub mm_order_id : ℕ
  pub blue_flatten_id : ℕ
  pub last_blue_mid : ℤ

abbrev pub sym_blue : ℕ
sym_blue = 2

-- The division of signed integers, towards zero.
abbrev pub quotient : ℤ → ℤ → ℤ
quotient (pos a) (pos b) = pos (a / b)
quotient (pos a) (negsuc b) = sub_ℕ 0 (a / suc b)
quotient (negsuc a) (pos b) = sub_ℕ 0 (suc a / b)
quotient (negsuc a) (negsuc b) = pos (suc a / suc b)

-- The product of two int32_t.
abbrev pub times_i32 : ℤ → ℤ → ℤ
times_i32 a b = i32_of (u32_of a * u32_of b % u32_mod)

-- The middle of the prices, rounded to ticks.
unfoldable pub blue_mid_of : ℤ → ℤ → ℕ → ℤ
blue_mid_of bid ask blue_tick =
    let tick = i32_of blue_tick in
    times_i32 (quotient (quotient (wrap32 (bid +ℤ ask)) (pos 2)) tick) tick

module _ {D : Type 0} ⦃d : Double D⦄ where
  -- `safe_delete` of the bid, and of the ask.
  unfoldable pub delete_bid : M D (Unit {0})
  delete_bid = do
    oid ← asks λ b. b.blue_bid_id
    if oid == 0
        then pure tt
        else do _ ← entering (delete_order_by_id oid); sets λ b. record b { blue_bid_id = 0 }

  unfoldable pub delete_ask : M D (Unit {0})
  delete_ask = do
    oid ← asks λ b. b.blue_ask_id
    if oid == 0
        then pure tt
        else do _ ← entering (delete_order_by_id oid); sets λ b. record b { blue_ask_id = 0 }

  -- An order of the market maker, under an id that the caller has taken.
  unfoldable pub quote : ℕ → Side → ℕ → ℤ → M D (Unit {0})
  quote oid side qty price = do
    sets λ b. record b { mm_order_map = insert oid (sym_blue, side) b.mm_order_map }
    _ ← entering (send_new_order oid sym_blue side qty price)
    pure tt

  -- The position guards.
  unfoldable pub guard_quotes : ℤ → ℤ → M D (Unit {0})
  guard_quotes mm_limit blue_pos = do
    if leb_ℤ (wrap32 (mm_limit -ℤ pos 1)) blue_pos then delete_bid else pure tt
    if leb_ℤ blue_pos (neg_i32 (wrap32 (mm_limit -ℤ pos 1))) then delete_ask else pure tt

  -- The order that closes a short position in BLUE, once.
  unfoldable pub cover_short : ℤ → Quotes → M D Quotes
  cover_short blue_pos q = do
    ask ← reading (read_best_ask_price sym_blue)
    if leb_ℤ (pos 0) blue_pos
        then pure (record q { blue_flatten_id = 0 })
        else if (q.blue_flatten_id == 0) && ltb_ℤ (pos 0) ask
        then (do
          let oid = q.mm_order_id + 1
          quote oid buy (u32_of (neg_i32 blue_pos)) ask
          pure (record q { mm_order_id = oid; blue_flatten_id = oid }))
        else pure q

  unfoldable pub quote_bid : ℤ → ℤ → ℕ → ℕ → M D ℕ
  quote_bid mm_limit mid blue_tick mm_order_id = do
    blue_pos ← position_of sym_blue
    if ltb_ℤ blue_pos mm_limit
        then (do
          let oid = mm_order_id + 1
          sets λ b. record b { blue_bid_id = oid }
          quote oid buy 1 (wrap32 (mid -ℤ pos blue_tick))
          pure oid)
        else pure mm_order_id

  unfoldable pub quote_ask : ℤ → ℤ → ℕ → ℕ → M D ℕ
  quote_ask mm_limit mid blue_tick mm_order_id = do
    blue_pos ← position_of sym_blue
    if ltb_ℤ (neg_i32 mm_limit) blue_pos
        then (do
          let oid = mm_order_id + 1
          sets λ b. record b { blue_ask_id = oid }
          quote oid sell 1 (wrap32 (mid +ℤ pos blue_tick))
          pure oid)
        else pure mm_order_id

  -- New quotes around a middle that has moved, unless an arbitrage is in progress.
  unfoldable pub move_quotes : ℤ → ℕ → ℤ → Quotes → M D Quotes
  move_quotes mm_limit blue_tick mid q = do
    busy ← asks λ b. b.arb_in_progress
    if eqb_ℤ mid q.last_blue_mid || busy then pure q else do
      delete_bid
      delete_ask
      bid_id ← quote_bid mm_limit mid blue_tick q.mm_order_id
      ask_id ← quote_ask mm_limit mid blue_tick bid_id
      pure (record q { mm_order_id = ask_id; last_blue_mid = mid })

  -- A tick of zero is a division by zero.
  unfoldable pub requote : ℤ → ℕ → Quotes → M D Quotes
  requote mm_limit blue_tick q = do
    bid ← reading (read_best_bid_price sym_blue)
    ask ← reading (read_best_ask_price sym_blue)
    if ltb_ℤ (pos 0) bid && ltb_ℤ (pos 0) ask
        then if blue_tick == 0
          then (λ b. fault)
          else move_quotes mm_limit blue_tick (blue_mid_of bid ask blue_tick) q
        else pure q

  -- The market maker's part of a round.
  unfoldable pub make_market : ℤ → ℕ → Quotes → M D Quotes
  make_market mm_limit blue_tick q = do
    blue_pos ← position_of sym_blue
    guard_quotes mm_limit blue_pos
    q' ← cover_short blue_pos q
    requote mm_limit blue_tick q'

  -- No position above zero.
  unfoldable pub no_longs : List ℕ → M D Bool
  no_longs [] = pure true
  no_longs (id ∷ rest) = do
    position ← position_of id
    if ltb_ℤ (pos 0) position then pure false else no_longs rest

module _ {D : Type 0} ⦃d : Double D⦄ (w : World) where
  -- The arbitrage's part of a round.
  unfoldable pub arbitrage : ℕ → M D (Unit {0})
  arbitrage fuel = do
    busy ← asks λ b. b.arb_in_progress
    if busy
        then (do
          dorms_flat ← no_longs dorm_ids
          undy_flat ← is_flat (sym_undy ∷ [])
          if dorms_flat && undy_flat
              then (do for_each dorm_ids flatten; set_in_progress false)
              else check_timeout w)
        else look w fuel

  -- A round of `run_with_mm`.
  unfoldable pub mm_round : ℕ → ℤ → ℕ → Quotes → M D Quotes
  mm_round fuel mm_limit blue_tick q = do
    near ← near_limit
    if near
        then (do
          delete_bid
          delete_ask
          cancel_all
          for_each ids flatten
          await_flat w fuel
          pure q)
        else do arbitrage fuel; make_market mm_limit blue_tick q

  -- The loop for a number of rounds, and the cleanup behind it.
  unfoldable pub mm_rounds : ℕ → ℤ → ℕ → ℕ → Quotes → M D (Unit {0})
  mm_rounds fuel mm_limit blue_tick zero q = do delete_bid; delete_ask
  mm_rounds fuel mm_limit blue_tick (suc rounds) q = do
    q' ← mm_round fuel mm_limit blue_tick q
    pause w
    mm_rounds fuel mm_limit blue_tick rounds q'

  unfoldable pub run_with_mm : ℕ → ℤ → ℕ → ℕ → M D (Unit {0})
  run_with_mm fuel mm_limit blue_tick rounds =
      mm_rounds fuel mm_limit blue_tick rounds
        (record { mm_order_id = 90000; blue_flatten_id = 0; last_blue_mid = pos 0 })

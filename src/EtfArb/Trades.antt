-- ===== src/EtfArb/Trades.antt =====
-- The two arbitrages of etf_arb.cpp, and the unwinding when one fails.
use hftalgorithms.Base.{
  ℕ, zero, suc, ◌+◌, Bool, true, false, List, [], ◌∷◌, ◌++◌, ◌||◌, if◌then◌else◌, ltb,
}
use hftalgorithms.Base.Int.{
  ℤ, pos, negsuc, ◌+ℤ◌, ◌-ℤ◌, ltb_ℤ, leb_ℤ, eqb_ℤ, min_ℤ, abs_i32, u32_of, i32_of, wrap32,
}
use hftalgorithms.Base.Double.{Double}
use hftalgorithms.Messages.{Side, buy, sell}
use hftalgorithms.OrderEntry.{wait_for_response, wait_for_fill}
use hftalgorithms.EtfClient.{EtfResult}
use hftalgorithms.EtfClient
use hftalgorithms.Symbols.{
  dorm_ids, sym_undy, position_limit, on_fill, read_best_bid_price, read_best_ask_price,
}
use hftalgorithms.Symbols.Nav.{ArbSnapshot, DormData}
use hftalgorithms.EtfArb.{
  M, World, waiting, ◌>>=◌, ◌>>◌, pure, asks, sets, reading, changing, for_each, entering,
  position_of, place, place_no_wait, now, pause,
}

-- The loop of `creation_qty` over the dorms. Signed arithmetic wraps in the model.
unfoldable pub creation_bounds : List DormData → ℤ → ℤ
creation_bounds [] qty = qty
creation_bounds (x ∷ xs) qty =
    creation_bounds xs
      (min_ℤ (min_ℤ qty (i32_of x.best_ask_qty)) (wrap32 (position_limit -ℤ x.position)))

unfoldable pub creation_qty : ArbSnapshot → ℤ
creation_qty snap =
    min_ℤ (creation_bounds snap.sums.dorms (i32_of snap.undy.best_bid_qty))
      (wrap32 (position_limit +ℤ snap.undy.position))

unfoldable pub redemption_bounds : List DormData → ℤ → ℤ
redemption_bounds [] qty = qty
redemption_bounds (x ∷ xs) qty =
    redemption_bounds xs
      (min_ℤ (min_ℤ qty (i32_of x.best_bid_qty)) (wrap32 (position_limit +ℤ x.position)))

unfoldable pub redemption_qty : ArbSnapshot → ℤ
redemption_qty snap =
    redemption_bounds snap.sums.dorms
      (min_ℤ (i32_of snap.undy.best_ask_qty) (wrap32 (position_limit -ℤ snap.undy.position)))

module _ {D : Type 0} ⦃d : Double D⦄ where
  -- The loops that collect the answers to orders: how many were accepted.
  unfoldable pub collect : List ℕ → ℕ → M D ℕ
  collect [] acked = pure acked
  collect (oid ∷ oids) acked = do
    accepted ← entering (wait_for_response oid)
    collect oids (if accepted then acked + 1 else acked)

  -- The body of the first loop of `unwind_dorm_longs`, with the ids sent so far.
  unfoldable pub unwind_dorm : ℕ → List ℕ → M D (List ℕ)
  unwind_dorm id sent = do
    position ← position_of id
    bid ← reading (read_best_bid_price id)
    ask ← reading (read_best_ask_price id)
    if ltb_ℤ (pos 0) position
        then if leb_ℤ bid (pos 0)
          then pure sent
          else (do oid ← place_no_wait id sell (u32_of position) bid; pure (sent ++ oid ∷ []))
        else if leb_ℤ position (negsuc 7)
        then if leb_ℤ ask (pos 0) then pure sent else (do
          oid ← place_no_wait id buy (u32_of (abs_i32 position)) ask
          pure (sent ++ oid ∷ []))
        else pure sent

  unfoldable pub unwind_sends : List ℕ → List ℕ → M D (List ℕ)
  unwind_sends [] sent = pure sent
  unwind_sends (id ∷ rest) sent = do sent' ← unwind_dorm id sent; unwind_sends rest sent'

  unfoldable pub unwind_dorm_longs : M D (Unit {0})
  unwind_dorm_longs = do sent ← unwind_sends dorm_ids []; _ ← collect sent 0; pure tt

  -- The loops that send the ten legs, each at a price of the snapshot; the ids sent.
  unfoldable pub send_legs : Side → ℤ → (DormData → ℤ) → List ℕ → List DormData → M D (List ℕ)
  send_legs side qty price (id ∷ rest) (x ∷ xs) = do
    oid ← place_no_wait id side (u32_of qty) (price x)
    oids ← send_legs side qty price rest xs
    pure (oid ∷ oids)
  send_legs side qty price _ _ = pure []

  -- A check of the fills: every dorm has at least the quantity.
  unfoldable pub all_filled : List ℕ → ℤ → M D Bool
  all_filled [] qty = pure true
  all_filled (id ∷ rest) qty = do
    position ← position_of id
    others ← all_filled rest qty
    pure (if ltb_ℤ position qty then false else others)

  -- The fills that /create and /redeem stand for.
  unfoldable pub book_creation : ℤ → ℤ → M D (Unit {0})
  book_creation qty undy_price = do
    for_each dorm_ids (λ id. do
      bid ← reading (read_best_bid_price id)
      changing (on_fill id sell (u32_of qty) bid))
    changing (on_fill sym_undy buy (u32_of qty) undy_price)

  unfoldable pub book_redemption : ℤ → ℤ → M D (Unit {0})
  book_redemption qty undy_price = do
    changing (on_fill sym_undy sell (u32_of qty) undy_price)
    for_each dorm_ids (λ id. do
      ask ← reading (read_best_ask_price id)
      changing (on_fill id buy (u32_of qty) ask))

  abbrev pub set_in_progress : Bool → M D (Unit {0})
  set_in_progress value = sets λ b. record b { arb_in_progress = value }

module _ {D : Type 0} ⦃d : Double D⦄ (w : World) where
  -- The loop that waits for the fills, on fuel; false past the deadline.
  unfoldable pub await_fills : ℕ → ℕ → ℤ → M D Bool
  await_fills zero deadline qty b = waiting
  await_fills (suc fuel) deadline qty b =
      (do
        filled ← all_filled dorm_ids qty
        if filled then pure true else do
          time ← now w
          if ltb deadline time then pure false else do pause w; await_fills fuel deadline qty)
        b

  -- The loop that sells UNDY, on fuel: a round without a bid counts as no attempt.
  unfoldable pub sell_undy : ℕ → ℤ → ℕ → M D (Unit {0})
  sell_undy zero undy_pos attempts b = waiting
  sell_undy (suc fuel) undy_pos attempts b =
      (if ltb_ℤ (pos 0) undy_pos
          then if ltb attempts 5
            then (do
              bid ← reading (read_best_bid_price sym_undy)
              if leb_ℤ bid (pos 0)
                  then (do
                    pause w
                    position ← position_of sym_undy
                    sell_undy fuel position attempts)
                  else do
                    _ ← place sym_undy sell (u32_of undy_pos) bid
                    pause w
                    position ← position_of sym_undy
                    sell_undy fuel position (attempts + 1))
            else pure tt
          else pure tt)
        b

  -- `try_creation_arb` from the call of /create on.
  unfoldable pub create_and_sell : ℕ → ℤ → ArbSnapshot → M D Bool
  create_and_sell fuel qty snap = do
    client ← asks λ b. b.etf
    let result = EtfClient.create w.network qty client
    if result.success
        then (do
          book_creation qty snap.undy.best_bid_price
          position ← position_of sym_undy
          sell_undy fuel position 0
          pure true)
        else do unwind_dorm_longs; pure true

  -- `try_creation_arb` behind its guards.
  unfoldable pub creation_arb : ℕ → ℤ → ArbSnapshot → M D Bool
  creation_arb fuel qty snap = do
    set_in_progress true
    start ← now w
    sets λ b. record b { arb_start_time = start }
    oids ← send_legs buy qty (λ x. x.best_ask_price) dorm_ids snap.sums.dorms
    acked ← collect oids 0
    if ltb acked 10 then (do unwind_dorm_longs; pure true) else do
      time ← now w
      filled ← await_fills fuel (time + 5000) qty
      if filled
          then create_and_sell fuel qty snap
          else do unwind_dorm_longs; set_in_progress false; pure true

  -- MIN_EDGE is 0.
  unfoldable pub try_creation_arb : ℕ → ArbSnapshot → M D Bool
  try_creation_arb fuel snap = do
    busy ← asks λ b. b.arb_in_progress
    if snap.sums.any_dorm_ask_missing || eqb_ℤ snap.undy.best_bid_price (pos 0)
        then pure false
        else if busy
        then pure false
        else if leb_ℤ (wrap32 (snap.undy.best_bid_price -ℤ snap.sums.nav_ask)) (pos 0)
        then pure false
        else if leb_ℤ (creation_qty snap) (pos 0)
        then pure false
        else creation_arb fuel (creation_qty snap) snap

  -- `try_redemption_arb` from the call of /redeem on.
  unfoldable pub redeem_and_sell : ℤ → ArbSnapshot → M D Bool
  redeem_and_sell qty snap = do
    client ← asks λ b. b.etf
    let result = EtfClient.redeem w.network qty client
    if result.success
        then (do
          book_redemption qty snap.undy.best_ask_price
          oids ← send_legs sell qty (λ x. x.best_bid_price) dorm_ids snap.sums.dorms
          _ ← collect oids 0
          pure true)
        else pure true

  -- `try_redemption_arb` behind its guards.
  unfoldable pub redemption_arb : ℤ → ArbSnapshot → M D Bool
  redemption_arb qty snap = do
    set_in_progress true
    start ← now w
    sets λ b. record b { arb_start_time = start }
    (oid, bought) ← place sym_undy buy (u32_of qty) snap.undy.best_ask_price
    if bought
        then (do
          time ← now w
          filled ← entering (wait_for_fill time oid)
          if filled then redeem_and_sell qty snap else do set_in_progress false; pure true)
        else do set_in_progress false; pure false

  unfoldable pub try_redemption_arb : ArbSnapshot → M D Bool
  try_redemption_arb snap = do
    busy ← asks λ b. b.arb_in_progress
    if snap.sums.any_dorm_bid_missing || eqb_ℤ snap.undy.best_ask_price (pos 0)
        then pure false
        else if busy
        then pure false
        else if leb_ℤ (wrap32 (snap.sums.nav_bid -ℤ snap.undy.best_ask_price)) (pos 0)
        then pure false
        else if leb_ℤ (redemption_qty snap) (pos 0)
        then pure false
        else redemption_arb (redemption_qty snap) snap

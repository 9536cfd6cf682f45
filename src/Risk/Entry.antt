-- ===== src/Risk/Entry.antt =====
-- The methods of risk_manager.cpp that change state. What they log is left out.
use hftalgorithms.Base.{
  ℕ, ◌-◌, ◌/◌, Bool, true, false, none, some, List, [], ◌∷◌, map, ◌||◌, ◌&&◌, leb, ◌==◌,
  if◌then◌else◌,
}
use hftalgorithms.Base.Int.{ℤ, ltb_ℤ, abs_i32, add_u32, sub_u32}
use hftalgorithms.Base.Dict.{lookup, insert, erase}
use hftalgorithms.Base.Double.{Double}
use hftalgorithms.Messages.{Side}
use hftalgorithms.Trackers.Position
use hftalgorithms.Trackers.Exposure
use hftalgorithms.Trackers.Pnl
use hftalgorithms.Risk.Types.{RiskManager, IOrderSender, OpenOrderInfo, is_ok}
use hftalgorithms.Risk.Checks.{check_new_order, check_modify_order, check_rate_limits}

module _ {D S : Type 0} where
  -- Called at time `now`; a second is 1000 whole milliseconds.
  unfoldable pub refresh_rate_window : ℕ → RiskManager D S → RiskManager D S
  refresh_rate_window now r =
      if leb 1000 ((now - r.second_window_start) / 1_000_000)
      then record r { orders_this_second = 0; second_window_start = now }
      else r

  unfoldable pub on_seq_num_update : ℕ → RiskManager D S → RiskManager D S
  on_seq_num_update seq_num r =
      if seq_num == r.last_seq_num
      then r
      else record r { orders_this_seq_num = 0; last_seq_num = seq_num }

  unfoldable pub open_order_ids : RiskManager D S → List ℕ
  open_order_ids r = map (λ e. e.0) r.open_orders

  -- Both trackers forget an order.
  abbrev pub forget : ℕ → RiskManager D S → RiskManager D S
  forget order_id r = record r {
    exposure_tracker = Exposure.on_order_removed order_id r.exposure_tracker;
    open_orders = erase order_id r.open_orders;
  }

  -- The exposure tracker forgets an order.
  abbrev pub unregister : ℕ → RiskManager D S → RiskManager D S
  unregister order_id r = record r {
    exposure_tracker = Exposure.on_order_removed order_id r.exposure_tracker;
  }

  unfoldable pub on_reject : ℕ → RiskManager D S → RiskManager D S
  on_reject = forget

  unfoldable pub on_close : ℕ → RiskManager D S → RiskManager D S
  on_close = forget

  -- The sender has answered, and the counters have moved: `unacked_orders` up and down again.
  abbrev pub counted : S → RiskManager D S → RiskManager D S
  counted sender r = record r {
    sender = sender;
    orders_this_second = add_u32 r.orders_this_second 1;
    orders_this_seq_num = add_u32 r.orders_this_seq_num 1;
    unacked_orders = sub_u32 (add_u32 r.unacked_orders 1) 1;
  }

  -- An accepted order is registered.
  abbrev pub register : ℕ → OpenOrderInfo → RiskManager D S → RiskManager D S
  register order_id o r = record r {
    open_orders = insert order_id o r.open_orders;
    exposure_tracker = Exposure.on_order_sent order_id o.side o.qty o.price r.exposure_tracker;
  }

module _ {D S : Type 0} ⦃s : IOrderSender S⦄ where
  unfoldable pub delete_order : ℕ → RiskManager D S → Bool × RiskManager D S
  delete_order order_id r =
      let (answer, sender) = s.delete_order order_id r.sender in
      let r' = record r { sender = sender } in (answer, if answer then forget order_id r' else r')

  -- The loop of `cancel_all_open_orders` over the ids still to cancel.
  unfoldable pub cancel : List ℕ → RiskManager D S → RiskManager D S
  unfolding delete_order
  cancel [] r = r
  cancel (id ∷ ids) r = cancel ids (delete_order id r).1

  unfoldable pub cancel_all_open_orders : RiskManager D S → RiskManager D S
  cancel_all_open_orders r = cancel (open_order_ids r) r

module _ {D S : Type 0} ⦃d : Double D⦄ where
  unfoldable pub update_mark_price : ℤ → RiskManager D S → RiskManager D S
  update_mark_price mark_price r = record r {
    pnl_tracker = Pnl.update_mark_price mark_price r.pnl_tracker;
  }

  -- The profit and loss, or the position, is out of bounds.
  unfoldable pub is_breached : RiskManager D S → Bool
  is_breached r =
      Pnl.below_min_pnl r.pnl_tracker
      || ltb_ℤ r.limits.max_position (abs_i32 r.position_tracker.position)

  -- The three trackers take the fill, and a closed order is no longer open.
  abbrev pub book_fill : ℕ → Side → ℕ → ℤ → Bool → RiskManager D S → RiskManager D S
  book_fill order_id side qty price closed r = record r {
    position_tracker = Position.on_fill side qty r.position_tracker;
    pnl_tracker = Pnl.on_fill side qty price r.pnl_tracker;
    exposure_tracker = Exposure.on_fill order_id qty r.exposure_tracker;
    open_orders = if closed then erase order_id r.open_orders else r.open_orders;
  }

module _ {D S : Type 0} ⦃d : Double D⦄ ⦃s : IOrderSender S⦄ where
  unfoldable pub check_and_shutdown_if_needed : RiskManager D S → RiskManager D S
  check_and_shutdown_if_needed r =
      if r.is_shutdown || r.in_shutdown
      then r
      else if is_breached r
      then record (cancel_all_open_orders (record r { is_shutdown = true; in_shutdown = true })) {
        in_shutdown = false;
      }
      else r

  -- `send_new_order` from the call of the sender up to the check for a shutdown.
  unfoldable pub submit_new_order : ℕ → OpenOrderInfo → RiskManager D S → Bool × RiskManager D S
  submit_new_order order_id o r =
      let (answer, sender) = s.send_new_order order_id o.symbol o.side o.qty o.price r.sender in
      (answer, if answer then register order_id o (counted sender r) else counted sender r)

  unfoldable pub send_new_order :
      ℕ → ℕ → ℕ → Side → ℕ → ℤ → RiskManager D S → Bool × RiskManager D S
  send_new_order now order_id symbol side qty price r =
      let r' = refresh_rate_window now r in
      let o : OpenOrderInfo = record { symbol = symbol; side = side; qty = qty; price = price } in
      let sent = submit_new_order order_id o r' in
      if is_ok (check_new_order order_id side qty price r') && is_ok (check_rate_limits r')
      then (sent.0, check_and_shutdown_if_needed sent.1)
      else (false, r')

  -- `modify_order` from the call of the sender up to the check for a shutdown.
  unfoldable pub submit_modify : ℕ → OpenOrderInfo → RiskManager D S → Bool × RiskManager D S
  submit_modify order_id o r =
      let (answer, sender) = s.modify_order order_id o.side o.qty o.price r.sender in
      let r' = counted sender r in
      (answer, if answer then register order_id o (unregister order_id r') else r')

  -- The checks have found the order, so the case `none` does not arise.
  unfoldable pub modify_order : ℕ → ℕ → Side → ℕ → ℤ → RiskManager D S → Bool × RiskManager D S
  modify_order now order_id side qty price r =
      let r' = refresh_rate_window now r in
      if is_ok (check_modify_order order_id side qty price r') && is_ok (check_rate_limits r')
      then elim (lookup order_id r'.open_orders) [
        | none ↦ (false, r')
        | some old ↦
            let sent =
              submit_modify order_id (record old { side = side; qty = qty; price = price }) r' in
            (sent.0, check_and_shutdown_if_needed sent.1)
      ]
      else (false, r')

  unfoldable pub on_fill : ℕ → ℕ → ℤ → Bool → RiskManager D S → RiskManager D S
  on_fill order_id qty price closed r = elim (lookup order_id r.open_orders) [
    | none ↦ r
    | some o ↦ check_and_shutdown_if_needed (book_fill order_id o.side qty price closed r)
  ]

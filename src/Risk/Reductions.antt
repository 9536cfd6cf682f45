-- ===== src/Risk/Reductions.antt =====
-- What `check_modify_order` of risk_manager.cpp lets pass after a partial fill: a modification to no
-- more than the quantity that the order was sent with.
use hftalgorithms.Base.{
  ℕ, ◌+◌, ◌-◌, ◌/◌, ◌%◌, ◌<◌, ◌≤◌, ◌≡◌, refl, sym, ap, ◌∙◌, subst, Bool, true, false, some, none,
  arith, inl, inr, Bool-cases, ◌||◌, leb, if_keeps,
}
use hftalgorithms.Base.Int.{ℤ, ltb_ℤ, u32_mod, sub_u32}
use hftalgorithms.Base.Double.{Double}
use hftalgorithms.Base.Dict.{lookup, lookup-insert, total, total-insert}
use hftalgorithms.Messages.{Side, buy, sell, other_side, is_buy}
use hftalgorithms.Trackers.Exposure.{PendingOrder}
use hftalgorithms.Trackers.Exposure
use hftalgorithms.Trackers.Position
use hftalgorithms.Trackers.Exposure.Accounting.{working}
use hftalgorithms.Trackers.Exposure.Pending.{total-removed}
use hftalgorithms.Risk.Types.{RiskManager, IOrderSender, OpenOrderInfo, ok}
use hftalgorithms.Risk.Checks.{check_modify_order, check_modify_known, check_rate_limits, same_side}
use hftalgorithms.Risk.Entry.{
  register, unregister, counted, book_fill, is_breached, refresh_rate_window, on_fill,
  check_and_shutdown_if_needed, modify_order, submit_modify,
}
use hftalgorithms.Risk.Books.{IsBooked, unregistered, fill-IsBooked}
use hftalgorithms.Risk.Containment.{exposure_of}

same_side_refl : (side : Side) → same_side side side ≡ true
same_side_refl buy = refl
same_side_refl sell = refl
same_side_refl (other_side m) = ground arith

module _ {D S : Type 0} where
  register-exposure :
      (id : ℕ) (o : OpenOrderInfo) (r : RiskManager D S)
      → lookup id r.exposure_tracker.pending_orders ≡ none
      → exposure_of (is_buy o.side) (register id o r) ≡ exposure_of (is_buy o.side) r + o.qty
  unfolding Exposure.on_order_sent
  register-exposure id o r fresh = ground (
    arith,
    fresh,
    total-insert (working (is_buy o.side)) id
        (record { side = o.side; qty = o.qty; price = o.price }) r.exposure_tracker.pending_orders,
  )

  unregister-exposure :
      (id : ℕ) (r : RiskManager D S) (p : PendingOrder)
      → IsBooked r
      → lookup id r.exposure_tracker.pending_orders ≡ some p
      → exposure_of (is_buy p.side) (unregister id r) + p.qty ≡ exposure_of (is_buy p.side) r
  unregister-exposure id r p b e =
      ground (arith, e, total-removed (is_buy p.side) id r.exposure_tracker b.accounted)

-- What pending orders have working on a side.
abbrev pub pending_of : {D S : Type 0} → Bool → RiskManager D S → ℕ
pending_of b r = total (working b) r.exposure_tracker.pending_orders

module _ {D S : Type 0} ⦃d : Double D⦄ ⦃s : IOrderSender S⦄ where
  -- The manager is in order, an open order has `left` of its quantity pending, and the exchange and
  -- the limits on price and size allow a modification to the same side.
  pub record CanModify (id left qty : ℕ) (price sent_price : ℤ) (old : OpenOrderInfo)
      (r : RiskManager D S) : Type 0 where
    pub booked : IsBooked r
    pub up : r.is_shutdown ≡ false
    pub healthy : is_breached r ≡ false
    pub is_open : lookup id r.open_orders ≡ some old
    pub pending :
        lookup id r.exposure_tracker.pending_orders
        ≡ some (record { side = old.side; qty = left; price = sent_price })
    pub valid : ltb_ℤ price r.limits.min_valid_price ≡ false
    pub size : qty ≤ r.limits.max_qty_per_order
    pub taken : (s.modify_order id old.side qty price r.sender).0 ≡ true

  unbreached : (r : RiskManager D S) → is_breached r ≡ false → check_and_shutdown_if_needed r ≡ r
  unfolding check_and_shutdown_if_needed
  unbreached r e = elim (Bool-cases (r.is_shutdown || r.in_shutdown)) [
    | inl off ↦ rw (check_and_shutdown_if_needed, off) refl
    | inr on ↦ rw (check_and_shutdown_if_needed, on, e) refl
  ]

  registered-is_breached :
      (id : ℕ) (o : OpenOrderInfo) (sender : S) (r : RiskManager D S)
      → is_breached (register id o (unregister id (counted sender r))) ≡ is_breached r
  unfolding is_breached
  registered-is_breached id o sender r = refl

  refresh-CanModify :
      (now id left qty : ℕ) (price sent_price : ℤ) (old : OpenOrderInfo) (r : RiskManager D S)
      → CanModify id left qty price sent_price old r
      → CanModify id left qty price sent_price old (refresh_rate_window now r)
  unfolding refresh_rate_window is_breached
  refresh-CanModify now id left qty price sent_price old r can =
      if_keeps (CanModify id left qty price sent_price old)
        (leb 1000 ((now - r.second_window_start) / 1_000_000))
        (record {
          booked = record { accounted = can.booked.accounted; covered = can.booked.covered };
          up = can.up;
          healthy = can.healthy;
          is_open = can.is_open;
          pending = can.pending;
          valid = can.valid;
          size = can.size;
          taken = can.taken;
        })
        can

  refresh-pending_of :
      (b : Bool) (now : ℕ) (r : RiskManager D S)
      → pending_of b (refresh_rate_window now r) ≡ pending_of b r
  unfolding refresh_rate_window
  refresh-pending_of b now r = ground arith

  refresh-position :
      (now : ℕ) (r : RiskManager D S)
      → (refresh_rate_window now r).position_tracker ≡ r.position_tracker
  unfolding refresh_rate_window
  refresh-position now r = ground arith

  check-passes :
      (id left qty : ℕ) (price sent_price : ℤ) (old : OpenOrderInfo) (r : RiskManager D S)
      → CanModify id left qty price sent_price old r
      → qty ≤ old.qty
      → check_modify_order id old.side qty price r ≡ ok
  unfolding check_modify_order check_modify_known
  check-passes id left qty price sent_price old r can less =
      ground (arith, can.up, can.is_open, same_side_refl old.side, can.valid, can.size, less)

  modify-books :
      (now id left qty : ℕ) (price sent_price : ℤ) (old : OpenOrderInfo) (r : RiskManager D S)
      → CanModify id left qty price sent_price old (refresh_rate_window now r)
      → check_rate_limits (refresh_rate_window now r) ≡ ok
      → qty ≤ old.qty
      → let r' = refresh_rate_window now r in
        modify_order now id old.side qty price r ≡ (
          true,
          register id
              (record old { qty = qty; price = price })
              (unregister id (counted (s.modify_order id old.side qty price r'.sender).1 r')),
        )
  unfolding modify_order submit_modify
  modify-books now id left qty price sent_price old r can rates less =
      let r' = refresh_rate_window now r in
      let o : OpenOrderInfo = record old { qty = qty; price = price } in
      let sender = (s.modify_order id old.side qty price r'.sender).1 in
      rw
        (
          modify_order,
          check-passes id left qty price sent_price old r' can less,
          rates,
          can.is_open,
          can.taken,
        )
        (ap (λ x. (true, x))
          (unbreached (register id o (unregister id (counted sender r')))
            (registered-is_breached id o sender r' ∙ can.healthy)))

  modify-pending_of :
      (now id left qty : ℕ) (price sent_price : ℤ) (old : OpenOrderInfo) (r : RiskManager D S)
      → CanModify id left qty price sent_price old r
      → check_rate_limits (refresh_rate_window now r) ≡ ok
      → qty ≤ old.qty
      → let (answer, r2) = modify_order now id old.side qty price r in
        (answer ≡ true)
        × (pending_of (is_buy old.side) r2 + left ≡ pending_of (is_buy old.side) r + qty)
        × (r2.position_tracker ≡ r.position_tracker)
  modify-pending_of now id left qty price sent_price old r can rates less =
      let ready = refresh-CanModify now id left qty price sent_price old r can in
      let r' = refresh_rate_window now r in
      let o : OpenOrderInfo = record old { qty = qty; price = price } in
      let c = counted (s.modify_order id old.side qty price r'.sender).1 r' in
      let booked : IsBooked c = record {
        accounted = ready.booked.accounted;
        covered = ready.booked.covered;
      } in
      let same = modify-books now id left qty price sent_price old r ready rates less in
      (
        ap (λ x. x.0) same,
        omega (
          arith,
          ap (λ x. pending_of (is_buy old.side) x.1) same,
          register-exposure id o (unregister id c) (unregistered id c),
          unregister-exposure id c (record { side = old.side; qty = left; price = sent_price })
              booked ready.pending,
          refresh-pending_of (is_buy old.side) now r,
        ),
        ap (λ x. x.1.position_tracker) same ∙ refresh-position now r,
      )

  fill-CanModify :
      (id filled qty : ℕ) (price sent_price fill_price : ℤ) (old : OpenOrderInfo)
      (r : RiskManager D S)
      → CanModify id old.qty qty price sent_price old r
      → filled < old.qty
      → old.qty < u32_mod
      → is_breached (book_fill id old.side filled fill_price false r) ≡ false
      → let r' = book_fill id old.side filled fill_price false r in
        CanModify id (old.qty - filled) qty price sent_price old r'
        × (pending_of (is_buy old.side) r' + filled ≡ pending_of (is_buy old.side) r)
  unfolding Exposure.on_fill sub_u32
  fill-CanModify id filled qty price sent_price fill_price old r can part small healthy =
      let left : PendingOrder = record {
        side = old.side;
        qty = old.qty - filled;
        price = sent_price;
      } in
      let d = r.exposure_tracker.pending_orders in
      let rest : (old.qty + u32_mod - filled) % u32_mod ≡ old.qty - filled =
        omega (arith, part, small) in
      (
        record {
          booked =
              fill-IsBooked id filled old.side fill_price false r
                (λ o closed e. ground (arith, closed)) can.booked;
          up = can.up;
          healthy = healthy;
          is_open = can.is_open;
          pending = ground (arith, can.pending, part, small, lookup-insert id id left d);
          valid = can.valid;
          size = can.size;
          taken = can.taken;
        },
        ground
            (arith, can.pending, part, small, total-insert (working (is_buy old.side)) id left d),
      )

  -- A partial fill does not lower the quantity that a later modification is compared with. So when an
  -- open order of which nothing was filled is filled in part, and the position and the profit are
  -- then in bounds, a modification to the same side and to at most the quantity it was sent with is
  -- accepted whatever the limits on exposure and position are, if its price, its size and the rate of
  -- orders are allowed and the exchange takes it; and all of that quantity is pending again beside
  -- the position that the fill has moved.
  pub reduction_unchecked :
      (now id filled qty : ℕ) (price sent_price fill_price : ℤ) (old : OpenOrderInfo)
      (r : RiskManager D S)
      → CanModify id old.qty qty price sent_price old r
      → filled < old.qty
      → old.qty < u32_mod
      → is_breached (book_fill id old.side filled fill_price false r) ≡ false
      → check_rate_limits (refresh_rate_window now (on_fill id filled fill_price false r)) ≡ ok
      → qty ≤ old.qty
      → let (answer, r2) =
          modify_order now id old.side qty price (on_fill id filled fill_price false r) in
        (answer ≡ true)
        × (pending_of (is_buy old.side) r2 + old.qty ≡ pending_of (is_buy old.side) r + qty)
        × (r2.position_tracker ≡ Position.on_fill old.side filled r.position_tracker)
  unfolding on_fill
  reduction_unchecked now id filled qty price sent_price fill_price old r can part small healthy
        rates less =
      let r1 = book_fill id old.side filled fill_price false r in
      let (ready, moved) =
        fill-CanModify id filled qty price sent_price fill_price old r can part small healthy in
      let done : on_fill id filled fill_price false r ≡ r1 =
        rw (on_fill, can.is_open) (unbreached r1 healthy) in
      let rates' = subst (λ x. check_rate_limits (refresh_rate_window now x) ≡ ok) done rates in
      let (answered, sum, position) =
        modify-pending_of now id (old.qty - filled) qty price sent_price old r1 ready rates' less in
      subst
        (λ x.
          let (answer, r2) = modify_order now id old.side qty price x in
          (answer ≡ true)
          × (pending_of (is_buy old.side) r2 + old.qty ≡ pending_of (is_buy old.side) r + qty)
          × (r2.position_tracker ≡ Position.on_fill old.side filled r.position_tracker))
        (sym done) (answered, omega (arith, sum, moved, part), position)

-- ===== src/Risk/Reach.antt =====
-- Over any history of calls of risk_manager.cpp the exposures stay within the limit.
use hftalgorithms.Base.{
  ℕ, refl, ◌-◌, ◌/◌, ◌≤◌, ◌<◌, ◌≡◌, Bool, true, false, some, List, [], ◌∷◌, arith, leb, ◌==◌,
  if_keeps,
}
use hftalgorithms.Base.Double.{Double}
use hftalgorithms.Base.Dict.{lookup, total}
use hftalgorithms.Trackers.Exposure.{PendingOrder}
use hftalgorithms.Risk.Types.{RiskManager, RiskLimits, IOrderSender, OpenOrderInfo, init}
use hftalgorithms.Risk.Entry.{
  refresh_rate_window, on_seq_num_update, on_reject, on_close, update_mark_price, counted,
  unregister,
}
use hftalgorithms.Risk.Books.{init-IsBooked, unknown_of_ok, unregistered}
use hftalgorithms.Risk.Containment.{
  IsContained, IsContained-Stable, forget-IsContained, register-IsContained, unregister-IsContained,
  reach_of, exposure_of,
}
use hftalgorithms.Risk.Fixed.{run-HasLimit}
use hftalgorithms.Risk.Bounded.{frame-IsContained, new_fits, modified_fits}
use hftalgorithms.Risk.Histories.{IsBacked, fill-IsContained}
use hftalgorithms.Risk.Stable.{
  delete_order-Stable, cancel_all-Stable, send_new_order-Stable, modify_order-Stable,
  on_fill-Stable,
}
use hftalgorithms.Risk.Events.{
  Call, sends, modifies, deletes, cancels_all, fills, rejects, closes, marks, observes, step, run,
}

-- The open order has had no fill: what it has pending is its whole quantity.
abbrev IsUnfilled : {D S : Type 0} → ℕ → RiskManager D S → Type 0
IsUnfilled id r =
    (o : OpenOrderInfo)
    → lookup id r.open_orders ≡ some o
    → (p : PendingOrder) × (lookup id r.exposure_tracker.pending_orders ≡ some p) × (p.qty ≡ o.qty)

-- A fill is of at most what its order has left, and an order is modified only before its first fill.
abbrev pub IsRegular : {D S : Type 0} → Call → RiskManager D S → Type 0
IsRegular (fills id qty price closed) r = IsBacked id qty closed r
IsRegular (modifies now id side qty price) r = IsUnfilled id r
IsRegular (sends now id symbol side qty price) r = Unit
IsRegular (deletes id) r = Unit
IsRegular cancels_all r = Unit
IsRegular (rejects id) r = Unit
IsRegular (closes id) r = Unit
IsRegular (marks price) r = Unit
IsRegular (observes seq_num) r = Unit

module _ {D S : Type 0} where
  refresh-IsContained :
      (now : ℕ) (r : RiskManager D S) → IsContained r → IsContained (refresh_rate_window now r)
  unfolding refresh_rate_window
  refresh-IsContained now r c =
      if_keeps IsContained (leb 1000 ((now - r.second_window_start) / 1_000_000))
        (frame-IsContained r.sender r.pnl_tracker 0 now r.orders_this_seq_num r.last_seq_num
          r.unacked_orders r.is_shutdown r.in_shutdown r c)
        c

  observe-IsContained :
      (seq_num : ℕ) (r : RiskManager D S)
      → IsContained r
      → IsContained (on_seq_num_update seq_num r)
  unfolding on_seq_num_update
  observe-IsContained seq_num r c = if_keeps IsContained (seq_num == r.last_seq_num) c (
      frame-IsContained r.sender r.pnl_tracker r.orders_this_second r.second_window_start 0 seq_num
        r.unacked_orders r.is_shutdown r.in_shutdown r c)

  refresh-IsUnfilled :
      (now id : ℕ) (r : RiskManager D S)
      → IsUnfilled id r
      → IsUnfilled id (refresh_rate_window now r)
  unfolding refresh_rate_window
  refresh-IsUnfilled now id r u =
      if_keeps (IsUnfilled id) (leb 1000 ((now - r.second_window_start) / 1_000_000)) u u

  counted-IsContained :
      (sender : S) (r : RiskManager D S) → IsContained r → IsContained (counted sender r)
  counted-IsContained sender r c =
      frame-IsContained sender r.pnl_tracker _ r.second_window_start _ r.last_seq_num _
        r.is_shutdown r.in_shutdown r c

module _ {D S : Type 0} ⦃d : Double D⦄ ⦃s : IOrderSender S⦄ where
  pub init-IsContained :
      (sender : S) (limits : RiskLimits D) (now : ℕ)
      → limits.max_exposure < 0x8000_0000
      → limits.max_qty_per_order < 0x8000_0000
      → IsContained (init sender limits now)
  unfolding init
  init-IsContained sender limits now h k = record {
    booked = init-IsBooked sender limits now;
    sides = λ id o p e f. unfold lookup in ground (arith, e);
    room = λ s. no_exposure s;
    exposure_limit = h;
    order_limit = k;
  }
    where
      no_exposure : (s : Bool) → exposure_of s (init sender limits now) ≤ limits.max_exposure
      no_exposure true = unfold total in omega arith
      no_exposure false = unfold total in omega arith

  step-IsContained :
      (c : Call) (r : RiskManager D S) → IsRegular c r → IsContained r → IsContained (step c r)
  unfolding step
  step-IsContained (sends now id symbol side qty price) r h c =
      let ready = refresh-IsContained now r c in
      send_new_order-Stable IsContained IsContained-Stable now id symbol side qty price r ready
        λ e f sender.
          let r' = refresh_rate_window now r in
          let kept = counted-IsContained sender r' ready in
          (
            kept,
            register-IsContained id _ (counted sender r')
                (ready.booked.covered id (unknown_of_ok id side qty price r' e))
                (new_fits id side qty price r' ready e) kept,
          )
  step-IsContained (modifies now id side qty price) r h c =
      let ready = refresh-IsContained now r c in
      modify_order-Stable IsContained IsContained-Stable now id side qty price r ready
        λ e f old g sender.
          let r' = refresh_rate_window now r in
          let (p, found, whole) = refresh-IsUnfilled now id r h old g in
          let kept = counted-IsContained sender r' ready in
          (
            kept,
            register-IsContained id _ (unregister id (counted sender r'))
                (unregistered id (counted sender r'))
                (modified_fits id side qty price r' old p ready g found whole e)
                (unregister-IsContained id (counted sender r') kept),
          )
  step-IsContained (deletes id) r h c = delete_order-Stable IsContained IsContained-Stable id r c
  step-IsContained cancels_all r h c = cancel_all-Stable IsContained IsContained-Stable r c
  step-IsContained (fills id qty price closed) r h c =
      on_fill-Stable IsContained IsContained-Stable id qty price closed r c
        λ o e. fill-IsContained id qty price closed r o e h c
  step-IsContained (rejects id) r h c = unfold on_reject in forget-IsContained id r c
  step-IsContained (closes id) r h c = unfold on_close in forget-IsContained id r c
  step-IsContained (marks price) r h c =
      unfold update_mark_price in
      frame-IsContained r.sender _ r.orders_this_second r.second_window_start r.orders_this_seq_num
        r.last_seq_num r.unacked_orders r.is_shutdown r.in_shutdown r c
  step-IsContained (observes seq_num) r h c = observe-IsContained seq_num r c

  -- Every call of a history is regular.
  abbrev pub IsRegularRun : List Call → RiskManager D S → Type 0
  IsRegularRun [] r = Unit
  IsRegularRun (c ∷ cs) r = IsRegular c r × IsRegularRun cs (step c r)

  -- Over any history in which a fill is of at most what its order has left, and of all of it if the
  -- fill closes the order, and in which an order is modified only before its first fill, the distance
  -- of the position from zero plus what the pending orders of a side have left stays within the
  -- exposure limit, on both sides.
  pub run-IsContained :
      (cs : List Call) (r : RiskManager D S)
      → IsRegularRun cs r
      → IsContained r
      → IsContained (run cs r)
  unfolding run
  run-IsContained [] r h c = c
  run-IsContained (c ∷ cs) r h k = run-IsContained cs (step c r) h.1 (step-IsContained c r h.0 k)

  -- From a new manager with limits on exposure and on order size below 2 ^ 31, over any history in
  -- which a fill is of at most what its order has left, and of all of it if the fill closes the
  -- order, and in which an order is modified only before its first fill, the position stays within
  -- the exposure limit that the manager was given, long and short.
  pub position_within :
      (cs : List Call) (sender : S) (limits : RiskLimits D) (now : ℕ) (side : Bool)
      → limits.max_exposure < 0x8000_0000
      → limits.max_qty_per_order < 0x8000_0000
      → IsRegularRun cs (init sender limits now)
      → reach_of side (run cs (init sender limits now)).position_tracker.position
        ≤ limits.max_exposure
  position_within cs sender limits now side h k regular =
      let r = init sender limits now in
      let c = run-IsContained cs r regular (init-IsContained sender limits now h k) in
      let same = run-HasLimit limits.max_exposure cs r (unfold init in refl) in
      omega (arith, c.room side, same)

-- ===== src/Risk/Bounded.antt =====
-- Every call of risk_manager.cpp keeps the exposures within the limit, if the exchange keeps to what
-- it has acknowledged.
use hftalgorithms.Base.{ℕ, ◌+◌, ◌≤◌, ◌<◌, ◌≡◌, Bool, true, some, arith, if◌then◌else◌}
use hftalgorithms.Base.Int.{ℤ, sub_u32}
use hftalgorithms.Base.Dict.{lookup, contains}
use hftalgorithms.Messages.{Side, is_buy}
use hftalgorithms.Trackers.Pnl.{PnlTracker}
use hftalgorithms.Trackers.Exposure.{PendingOrder}
use hftalgorithms.Trackers.Exposure.Pending.{total-removed, max_removed}
use hftalgorithms.Risk.Types.{RiskManager, OpenOrderInfo, ok, is_ok, RiskResult, duplicate_order_id}
use hftalgorithms.Risk.Checks.{check_added, check_new_order, check_modify_order, check_modify_known}
use hftalgorithms.Risk.Entry.{unregister}
use hftalgorithms.Risk.Limits.{would_exceed_exposure_lem}
use hftalgorithms.Risk.Containment.{
  IsContained, exposure_of, contained-IsSymmetric, contained-outstanding,
}

module _ {D S : Type 0} where
  -- The rest of the state has no part in the invariant.
  pub frame-IsContained :
      (sender : S) (pnl : PnlTracker D) (per_second start per_seq_num last unacked : ℕ)
      (shut busy : Bool) (r : RiskManager D S)
      → IsContained r
      → IsContained (record r {
        sender = sender;
        pnl_tracker = pnl;
        orders_this_second = per_second;
        second_window_start = start;
        orders_this_seq_num = per_seq_num;
        last_seq_num = last;
        unacked_orders = unacked;
        is_shutdown = shut;
        in_shutdown = busy;
      })
  frame-IsContained sender pnl per_second start per_seq_num last unacked shut busy r c = record {
    booked = record { accounted = c.booked.accounted; covered = c.booked.covered };
    sides = c.sides;
    room = c.room;
    exposure_limit = c.exposure_limit;
    order_limit = c.order_limit;
  }

  -- What `check_added` establishes: the order's whole quantity fits under the exposure limit.
  added_fits :
      (side : Side) (qty : ℕ) (r : RiskManager D S) (rest : RiskResult)
      → IsContained r
      → qty < 0x8000_0000
      → is_ok (check_added side qty r rest) ≡ true
      → exposure_of (is_buy side) r + qty ≤ r.exposure_tracker.max_exposure
  unfolding check_added
  added_fits side qty r rest c small e = ground (
    arith,
    c.room (is_buy side),
    contained-outstanding (is_buy side) r c,
    would_exceed_exposure_lem side qty r (contained-IsSymmetric r c),
  )

  pub new_fits :
      (id : ℕ) (side : Side) (qty : ℕ) (price : ℤ) (r : RiskManager D S)
      → IsContained r
      → is_ok (check_new_order id side qty price r) ≡ true
      → exposure_of (is_buy side) r + qty ≤ r.exposure_tracker.max_exposure
  unfolding check_new_order
  new_fits id side qty price r c e = ground (
    arith,
    c.order_limit,
    added_fits side qty r (if contains id r.open_orders then duplicate_order_id else ok) c,
  )

  -- An accepted modification fits under the limit in place of what the order still has pending, if
  -- the order has had no fill.
  pub modified_fits :
      (id : ℕ) (side : Side) (qty : ℕ) (price : ℤ) (r : RiskManager D S) (old : OpenOrderInfo)
      (p : PendingOrder)
      → IsContained r
      → lookup id r.open_orders ≡ some old
      → lookup id r.exposure_tracker.pending_orders ≡ some p
      → p.qty ≡ old.qty
      → is_ok (check_modify_order id side qty price r) ≡ true
      → exposure_of (is_buy side) (unregister id r) + qty
        ≤ (unregister id r).exposure_tracker.max_exposure
  unfolding check_modify_order check_modify_known sub_u32
  modified_fits id side qty price r old p c e f g h = ground (
    arith,
    e,
    f,
    c.order_limit,
    c.room (is_buy side),
    c.sides id old p e f,
    total-removed (is_buy side) id r.exposure_tracker c.booked.accounted,
    max_removed id r.exposure_tracker,
    added_fits side qty r ok c,
    added_fits side (sub_u32 qty old.qty) r ok c,
  )

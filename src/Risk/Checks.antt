-- ===== src/Risk/Checks.antt =====
-- The checks of risk_manager.cpp that change no state.
use hftalgorithms.Base.{ℕ, Bool, false, none, some, ◌&&◌, ◌||◌, ltb, leb, ◌==◌, if◌then◌else◌}
use hftalgorithms.Base.Int.{ℤ, pos, ltb_ℤ, eqb_ℤ, add_u32, sub_u32}
use hftalgorithms.Base.Dict.{lookup, contains}
use hftalgorithms.Messages.{Side, buy, sell, other_side, is_buy, is_sell}
use hftalgorithms.Trackers.Position.{at_limit, would_exceed_limit}
use hftalgorithms.Trackers.Exposure.{would_exceed_exposure}
use hftalgorithms.Risk.Types.{
  RiskManager, RiskResult, ok, system_shutdown, invalid_price, qty_per_order_exceeded,
  qty_per_side_exceeded, exposure_exceeded, position_limit_would_increase, position_limit_exceeded,
  rate_limit_per_second, rate_limit_per_seq_num, unacked_limit_exceeded, duplicate_order_id,
  unknown_order_id, OpenOrderInfo,
}

-- `a == b` on SIDE
abbrev pub same_side : Side → Side → Bool
same_side buy b = is_buy b
same_side sell b = is_sell b
same_side (other_side m) (other_side n) = m == n
same_side (other_side m) b = false

module _ {D S : Type 0} where
  unfoldable pub would_increase_abs_position : Side → RiskManager D S → Bool
  would_increase_abs_position side r =
      let position = r.position_tracker.position in
      if eqb_ℤ position (pos 0)
      then false
      else (is_buy side && ltb_ℤ (pos 0) position) || (is_sell side && ltb_ℤ position (pos 0))

  unfoldable pub check_rate_limits : RiskManager D S → RiskResult
  check_rate_limits r =
      if leb r.limits.max_orders_per_second r.orders_this_second
      then rate_limit_per_second
      else if leb r.limits.max_orders_per_seq_num r.orders_this_seq_num
      then rate_limit_per_seq_num
      else if leb r.limits.max_unacked_orders r.unacked_orders
      then unacked_limit_exceeded
      else ok

  abbrev pub side_outstanding : Side → RiskManager D S → ℕ
  side_outstanding side r =
      if is_buy side
      then r.exposure_tracker.outstanding_buy_qty
      else r.exposure_tracker.outstanding_sell_qty

  -- The four tests on added quantity that the checks of new and of modified orders share, followed
  -- by `rest`.
  unfoldable pub check_added : Side → ℕ → RiskManager D S → RiskResult → RiskResult
  check_added side qty r rest =
      if ltb r.limits.max_qty_per_side (add_u32 (side_outstanding side r) qty)
      then qty_per_side_exceeded
      else if would_exceed_exposure side qty r.position_tracker r.exposure_tracker
      then exposure_exceeded
      else if at_limit r.position_tracker && would_increase_abs_position side r
      then position_limit_would_increase
      else if would_exceed_limit side qty r.position_tracker
      then position_limit_exceeded
      else rest

  unfoldable pub check_new_order : ℕ → Side → ℕ → ℤ → RiskManager D S → RiskResult
  check_new_order order_id side qty price r =
      if r.is_shutdown
      then system_shutdown
      else if ltb_ℤ price r.limits.min_valid_price
      then invalid_price
      else if ltb r.limits.max_qty_per_order qty
      then qty_per_order_exceeded
      else check_added side qty r
          (if contains order_id r.open_orders then duplicate_order_id else ok)

  -- `check_modify_order` once the order is known.
  unfoldable pub check_modify_known : OpenOrderInfo → Side → ℕ → ℤ → RiskManager D S → RiskResult
  check_modify_known existing new_side new_qty new_price r =
      if ltb_ℤ new_price r.limits.min_valid_price
      then invalid_price
      else if ltb r.limits.max_qty_per_order new_qty
      then qty_per_order_exceeded
      else if same_side new_side existing.side
      then (if ltb existing.qty new_qty
          then check_added new_side (sub_u32 new_qty existing.qty) r ok
          else ok)
      else check_added new_side new_qty r ok

  unfoldable pub check_modify_order : ℕ → Side → ℕ → ℤ → RiskManager D S → RiskResult
  check_modify_order order_id new_side new_qty new_price r =
      if r.is_shutdown then system_shutdown else elim (lookup order_id r.open_orders) [
        | none ↦ unknown_order_id
        | some existing ↦ check_modify_known existing new_side new_qty new_price r
      ]

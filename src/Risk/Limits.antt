-- ===== src/Risk/Limits.antt =====
-- What an order that passes the checks of risk_manager.cpp is known to satisfy, in integers that do
-- not wrap.
use hftalgorithms.Base.{
  ℕ, zero, suc, ◌+◌, ◌≤◌, ◌<◌, ◌≡◌, ◌↔◌, refl, true, false, none, arith, ltb, ◌&&◌, ◌||◌,
  if◌then◌else◌,
}
use hftalgorithms.Base.Int.{
  ℤ, pos, negsuc, pos_part, neg_part, ◌≤ℤ◌, ◌+ℤ◌, ◌-ℤ◌, add_u32, u32_of, neg_i32, max_ℤ,
  IsSymmetric, u32_mod,
}
use hftalgorithms.Base.Dict.{lookup, contains}
use hftalgorithms.Messages.{Side, is_buy, is_sell}
use hftalgorithms.Trackers.Position.{
  at_limit, would_exceed_limit, target, would_exceed_limit_iff, magnitude,
}
use hftalgorithms.Trackers.Exposure.{get_buy_exposure, get_sell_exposure, would_exceed_exposure}
use hftalgorithms.Risk.Types.{RiskManager, ok}
use hftalgorithms.Risk.Checks.{
  check_new_order, check_added, side_outstanding, would_increase_abs_position,
}

-- The distance of a position from zero on a side: long for buys, short for the rest.
abbrev pub reach : Side → ℤ → ℕ
reach side position = if is_buy side then pos_part position else neg_part position

abbrev pub distance : ℤ → ℕ
distance z = pos_part z + neg_part z

neg_i32-neg_part : (z : ℤ) → IsSymmetric z → u32_of (max_ℤ (pos 0) (neg_i32 z)) ≡ neg_part z
unfolding u32_of neg_i32
neg_i32-neg_part (pos zero) h = refl
neg_i32-neg_part (pos (suc n)) h = ground arith
neg_i32-neg_part (negsuc n) h = ground arith

pos_part_lem : (z : ℤ) → IsSymmetric z → u32_of (max_ℤ (pos 0) z) ≡ pos_part z
unfolding u32_of
pos_part_lem (pos n) h = ground arith
pos_part_lem (negsuc n) h = ground arith

module _ {D S : Type 0} where
  -- The order's quantity is positive, and no sum that the checks form leaves its type.
  pub record InRange (side : Side) (qty : ℕ) (r : RiskManager D S) : Type 0 where
    pub enumerator : (is_buy side || is_sell side) ≡ true
    pub positive : 0 < qty
    pub position : IsSymmetric r.position_tracker.position
    pub after : IsSymmetric (target side qty r.position_tracker.position)
    pub sums : reach side r.position_tracker.position + side_outstanding side r + qty < u32_mod

  -- The specification of a new order that may be sent.
  pub record IsAcceptable (id : ℕ) (side : Side) (qty : ℕ) (price : ℤ) (r : RiskManager D S)
      : Type 0 where
    pub running : r.is_shutdown ≡ false
    pub price_valid : r.limits.min_valid_price ≤ℤ price
    pub order_size : qty ≤ r.limits.max_qty_per_order
    pub side_size : side_outstanding side r + qty ≤ r.limits.max_qty_per_side
    pub exposure :
        reach side r.position_tracker.position + side_outstanding side r + qty
        ≤ r.exposure_tracker.max_exposure
    pub position :
        pos (distance (target side qty r.position_tracker.position))
        ≤ℤ r.position_tracker.max_position
    pub fresh : lookup id r.open_orders ≡ none

  pub would_exceed_exposure_lem :
      (side : Side) (qty : ℕ) (r : RiskManager D S)
      → IsSymmetric r.position_tracker.position
      → reach side r.position_tracker.position + side_outstanding side r + qty < u32_mod
      → would_exceed_exposure side qty r.position_tracker r.exposure_tracker
        ≡ ltb r.exposure_tracker.max_exposure
            (reach side r.position_tracker.position + side_outstanding side r + qty)
  unfolding would_exceed_exposure get_buy_exposure get_sell_exposure add_u32
  would_exceed_exposure_lem side qty r h k = ground (
    arith,
    neg_i32-neg_part r.position_tracker.position h,
    pos_part_lem r.position_tracker.position h,
  )

  -- At the limit, an order that leads further out also breaks the limit.
  further_out :
      (side : Side) (qty : ℕ) (r : RiskManager D S)
      → InRange side qty r
      → (at_limit r.position_tracker && would_increase_abs_position side r) ≡ true
      → would_exceed_limit side qty r.position_tracker ≡ true
  unfolding at_limit would_increase_abs_position ◌+ℤ◌ ◌-ℤ◌
  further_out side qty r i h = ground (
    arith,
    magnitude r.position_tracker.position i.position,
    would_exceed_limit_iff side qty r.position_tracker (omega (arith, i.position)) i.after,
  )

  accepted-IsAcceptable :
      (side : Side) (qty : ℕ) (price : ℤ) (id : ℕ) (r : RiskManager D S)
      → InRange side qty r
      → check_new_order id side qty price r ≡ ok
      → IsAcceptable id side qty price r
  unfolding check_new_order check_added contains add_u32
  accepted-IsAcceptable side qty price id r i e = ground (
    arith,
    would_exceed_exposure_lem side qty r i.position i.sums,
    would_exceed_limit_iff side qty r.position_tracker (omega (arith, i.position)) i.after,
  )

  acceptable-ok :
      (side : Side) (qty : ℕ) (price : ℤ) (id : ℕ) (r : RiskManager D S)
      → InRange side qty r
      → IsAcceptable id side qty price r
      → check_new_order id side qty price r ≡ ok
  unfolding check_new_order check_added contains add_u32
  acceptable-ok side qty price id r i a = ground (
    arith,
    would_exceed_exposure_lem side qty r i.position i.sums,
    would_exceed_limit_iff side qty r.position_tracker (omega (arith, i.position)) i.after,
    further_out side qty r i,
  )

  -- `check_new_order` answers OK exactly for the orders that the limits allow, read in integers that
  -- do not wrap, for a positive quantity and as long as no sum that it forms leaves its type.
  pub check_new_order_iff :
      (id : ℕ) (side : Side) (qty : ℕ) (price : ℤ) (r : RiskManager D S)
      → InRange side qty r
      → (check_new_order id side qty price r ≡ ok) ↔ IsAcceptable id side qty price r
  check_new_order_iff id side qty price r i =
      (accepted-IsAcceptable side qty price id r i, acceptable-ok side qty price id r i)

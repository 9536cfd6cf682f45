-- ===== src/Trackers/Exposure.antt =====
-- exposure_tracker.h and exposure_tracker.cpp: the quantity that our orders still have working. The
-- tracker's const reference to the position tracker is an argument of what reads it.
pub mod Accounting
pub mod Pending
use hftalgorithms.Base.{
  ℕ, ◌+◌, ◌≡◌, Bool, true, false, Option, none, some, [], ◌∷◌, ltb, ◌==◌, if◌then◌else◌, length,
}
use hftalgorithms.Base.Int.{ℤ, pos, max_ℤ, neg_i32, u32_of, add_u32, sub_u32}
use hftalgorithms.Base.Dict.{Dict, lookup, insert, erase}
use hftalgorithms.Messages.{Side, is_buy}
use hftalgorithms.Trackers.Position.{PositionTracker}

pub record PendingOrder : Type 0 where
  pub side : Side
  pub qty : ℕ
  pub price : ℤ

pub record ExposureTracker : Type 0 where
  pub max_exposure : ℕ
  pub outstanding_buy_qty : ℕ
  pub outstanding_sell_qty : ℕ
  pub pending_orders : Dict PendingOrder

-- The constructor.
abbrev pub init : ℕ → ExposureTracker
init max_exposure = record {
  max_exposure = max_exposure;
  outstanding_buy_qty = 0;
  outstanding_sell_qty = 0;
  pending_orders = [];
}

unfoldable pub on_order_sent : ℕ → Side → ℕ → ℤ → ExposureTracker → ExposureTracker
on_order_sent order_id side qty price t = record t {
  pending_orders =
      insert order_id (record { side = side; qty = qty; price = price }) t.pending_orders;
  outstanding_buy_qty =
      if is_buy side then add_u32 t.outstanding_buy_qty qty else t.outstanding_buy_qty;
  outstanding_sell_qty =
      if is_buy side then t.outstanding_sell_qty else add_u32 t.outstanding_sell_qty qty;
}

-- The outstanding quantity of a side, less `qty`.
release : Side → ℕ → ExposureTracker → ExposureTracker
release side qty t = record t {
  outstanding_buy_qty =
      if is_buy side then sub_u32 t.outstanding_buy_qty qty else t.outstanding_buy_qty;
  outstanding_sell_qty =
      if is_buy side then t.outstanding_sell_qty else sub_u32 t.outstanding_sell_qty qty;
}

pub on_order_removed : ℕ → ExposureTracker → ExposureTracker
unfolding release
on_order_removed order_id t = elim (lookup order_id t.pending_orders) [
  | none ↦ t
  | some o ↦ record (release o.side o.qty t) { pending_orders = erase order_id t.pending_orders }
]

unfoldable pub on_fill : ℕ → ℕ → ExposureTracker → ExposureTracker
unfolding release
on_fill order_id filled_qty t = elim (lookup order_id t.pending_orders) [
  | none ↦ t
  | some o ↦
      let left = sub_u32 o.qty filled_qty in
      record (release o.side filled_qty t) {
        pending_orders =
            if left == 0
            then erase order_id t.pending_orders
            else insert order_id (record o { qty = left }) t.pending_orders;
      }
]

unfoldable pub get_buy_exposure : PositionTracker → ExposureTracker → ℕ
get_buy_exposure p t = add_u32 (u32_of (max_ℤ (pos 0) p.position)) t.outstanding_buy_qty

unfoldable pub get_sell_exposure : PositionTracker → ExposureTracker → ℕ
get_sell_exposure p t = add_u32 (u32_of (max_ℤ (pos 0) (neg_i32 p.position))) t.outstanding_sell_qty

unfoldable pub would_exceed_exposure : Side → ℕ → PositionTracker → ExposureTracker → Bool
would_exceed_exposure side qty p t =
    if is_buy side
    then ltb t.max_exposure (add_u32 (get_buy_exposure p t) qty)
    else ltb t.max_exposure (add_u32 (get_sell_exposure p t) qty)

unfoldable pub get_outstanding_order_count : ExposureTracker → ℕ
get_outstanding_order_count t = length t.pending_orders

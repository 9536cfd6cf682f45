-- ===== src/Trackers/Pnl.antt =====
-- pnl_tracker.h and pnl_tracker.cpp: mark-to-market profit and loss, over any type of doubles.
use hftalgorithms.Base.{ℕ, Bool, if◌then◌else◌}
use hftalgorithms.Base.Int.{ℤ, pos, ltb_ℤ, eqb_ℤ, neg_i32, i32_of, wrap32, ◌+ℤ◌, ◌-ℤ◌}
use hftalgorithms.Base.Double.{Double}
use hftalgorithms.Messages.{Side, is_buy}

pub record PnlTracker (D : Type 0) : Type 0 where
  pub min_pnl : D
  pub position : ℤ
  pub buy_cost : D
  pub sell_revenue : D
  pub mark_price : ℤ

module _ {D : Type 0} ⦃d : Double D⦄ where
  open d use {of_int, add, sub, mul, div, lt}

  -- The constructor.
  abbrev pub init : D → PnlTracker D
  init min_pnl = record {
    min_pnl = min_pnl;
    position = pos 0;
    buy_cost = of_int (pos 0);
    sell_revenue = of_int (pos 0);
    mark_price = pos 0;
  }

  unfoldable pub on_fill : Side → ℕ → ℤ → PnlTracker D → PnlTracker D
  on_fill side qty price t =
      if is_buy side
      then record t {
        position = wrap32 (t.position +ℤ i32_of qty);
        buy_cost = add t.buy_cost (mul (of_int (pos qty)) (of_int price));
      }
      else record t {
        position = wrap32 (t.position -ℤ i32_of qty);
        sell_revenue = add t.sell_revenue (mul (of_int (pos qty)) (of_int price));
      }

  unfoldable pub update_mark_price : ℤ → PnlTracker D → PnlTracker D
  update_mark_price mark_price t = record t { mark_price = mark_price }

  unfoldable pub get_realized_pnl : PnlTracker D → D
  get_realized_pnl t = sub t.sell_revenue t.buy_cost

  avg_cost : PnlTracker D → D
  avg_cost t =
      if ltb_ℤ (pos 0) t.position
      then div t.buy_cost (of_int t.position)
      else div t.sell_revenue (of_int (neg_i32 t.position))

  unfoldable pub get_unrealized_pnl : PnlTracker D → D
  unfolding avg_cost
  get_unrealized_pnl t =
      if eqb_ℤ t.position (pos 0)
      then of_int (pos 0)
      else mul (of_int t.position) (sub (of_int t.mark_price) (avg_cost t))

  unfoldable pub get_total_pnl : PnlTracker D → D
  get_total_pnl t =
      add (sub t.sell_revenue t.buy_cost) (mul (of_int t.position) (of_int t.mark_price))

  unfoldable pub below_min_pnl : PnlTracker D → Bool
  below_min_pnl t = lt (get_total_pnl t) t.min_pnl

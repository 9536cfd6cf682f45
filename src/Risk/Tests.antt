-- ===== src/Risk/Tests.antt =====
-- A risk manager with an exchange that takes every request, and the theorems on risk_manager.cpp at
-- it.
use hftalgorithms.Base.{ℕ, ◌+◌, ◌≤◌, ◌≡◌, ◌↔◌, refl, Bool, true, false, List, [], ◌∷◌, arith}
use hftalgorithms.Base.Int.{
  ℤ, pos, negsuc, add_u32, sub_u32, u32_of, i32_of, abs_i32, neg_i32, wrap32, ◌+ℤ◌, ◌-ℤ◌,
}
use hftalgorithms.Base.Double.{exact}
use hftalgorithms.Base.Dict.{lookup, insert, contains, erase}
use hftalgorithms.Messages.{Side, buy, sell}
use hftalgorithms.Trackers.Exposure.{
  PendingOrder, ExposureTracker, would_exceed_exposure, get_buy_exposure, get_sell_exposure,
}
use hftalgorithms.Trackers.Position.{at_limit, would_exceed_limit, moved}
use hftalgorithms.Trackers.Exposure
use hftalgorithms.Trackers.Position
use hftalgorithms.Trackers.Pnl
use hftalgorithms.Trackers.Exposure.Accounting.{outstanding}
use hftalgorithms.Risk.Types.{RiskManager, RiskLimits, IOrderSender, OpenOrderInfo, init, ok}
use hftalgorithms.Risk.Checks.{
  check_new_order, check_added, check_rate_limits, would_increase_abs_position,
}
use hftalgorithms.Risk.Entry.{
  send_new_order, modify_order, refresh_rate_window, check_and_shutdown_if_needed, is_breached,
  submit_new_order, on_fill, on_seq_num_update,
}
use hftalgorithms.Risk.Events.{
  Call, sends, modifies, deletes, fills, cancels_all, observes, step, run,
}
use hftalgorithms.Risk.Limits.{IsAcceptable, check_new_order_iff}
use hftalgorithms.Risk.Books.{IsBooked, IsHonestRun, init-IsBooked, run-IsBooked}
use hftalgorithms.Risk.Shutdown.{shutdown_is_final, WindsDown}
use hftalgorithms.Risk.Clearing.{AcceptsDeletes, shutdown_clears}
use hftalgorithms.Risk.Containment.{IsContained, reach_of}
use hftalgorithms.Risk.Reach.{IsRegularRun, init-IsContained, run-IsContained, position_within}
use hftalgorithms.Risk.Reductions.{reduction_unchecked, CanModify, pending_of}

-- The exchange counts its calls and takes each.
instance abbrev agreeable : IOrderSender ℕ
agreeable = record {
  send_new_order = λ id symbol side qty price n. (true, n + 1);
  delete_order = λ id n. (true, n + 1);
  modify_order = λ id side qty price n. (true, n + 1);
}

agreeable-AcceptsDeletes : AcceptsDeletes agreeable
agreeable-AcceptsDeletes id n = refl

abbrev limits : RiskLimits ℤ
limits = record {
  max_qty_per_order = 10;
  max_qty_per_side = 20;
  max_exposure = 20;
  max_position = pos 15;
  max_orders_per_second = 3;
  max_orders_per_seq_num = 2;
  max_unacked_orders = 5;
  min_pnl = negsuc 999;
  min_valid_price = pos 1;
}

abbrev fresh : RiskManager ℤ ℕ
fresh = init 0 limits 0

abbrev calls : List Call
calls =
    sends 5 1 7 buy 4 (pos 100)
    ∷ fills 1 4 (pos 100) true
    ∷ observes 2
    ∷ sends 6 2 7 sell 3 (pos 101)
    ∷ modifies 7 2 sell 5 (pos 99)
    ∷ cancels_all
    ∷ []

fresh-IsContained : IsContained fresh
fresh-IsContained = init-IsContained 0 limits 0 (omega arith) (omega arith)

abbrev bought : PendingOrder
bought = record { side = buy; qty = 4; price = pos 100 }

abbrev offered : PendingOrder
offered = record { side = sell; qty = 3; price = pos 101 }

regular : IsRegularRun calls fresh
unfolding step init send_new_order refresh_rate_window check_new_order check_added check_rate_limits
    would_exceed_exposure at_limit would_increase_abs_position would_exceed_limit moved
    submit_new_order check_and_shutdown_if_needed is_breached on_fill on_seq_num_update contains
    lookup insert erase get_buy_exposure get_sell_exposure add_u32 sub_u32 u32_of i32_of abs_i32
    neg_i32 wrap32 ◌+ℤ◌ ◌-ℤ◌ Exposure.on_order_sent Exposure.on_fill Position.on_fill Pnl.on_fill
    Pnl.get_total_pnl Pnl.below_min_pnl
regular = (
  tt,
  (
    (λ o e. (bought, refl, omega arith, λ closed. refl)),
    (tt, (tt, ((λ o e. (offered, refl, ground (arith, e))), (tt, tt)))),
  ),
)

honest : IsHonestRun calls fresh
unfolding step init send_new_order refresh_rate_window check_new_order check_added check_rate_limits
    would_exceed_exposure at_limit would_increase_abs_position would_exceed_limit moved
    submit_new_order check_and_shutdown_if_needed is_breached on_fill on_seq_num_update contains
    lookup insert erase get_buy_exposure get_sell_exposure add_u32 sub_u32 u32_of i32_of abs_i32
    neg_i32 wrap32 ◌+ℤ◌ ◌-ℤ◌ Exposure.on_order_sent Exposure.on_fill Position.on_fill Pnl.on_fill
    Pnl.get_total_pnl Pnl.below_min_pnl
honest = (tt, ((λ o closed e. ground (arith, e)), (tt, (tt, (tt, (tt, tt))))))

abbrev after : RiskManager ℤ ℕ
after = run calls fresh

position_within_example : reach_of true after.position_tracker.position ≤ 20
position_within_example = position_within calls 0 limits 0 true (omega arith) (omega arith) regular

run-IsContained_example : IsContained after
run-IsContained_example = run-IsContained calls fresh regular fresh-IsContained

run-IsBooked_example : IsBooked after
run-IsBooked_example = run-IsBooked calls fresh honest (init-IsBooked 0 limits 0)

check_new_order_iff_example :
    (check_new_order 1 buy 4 (pos 100) fresh ≡ ok) ↔ IsAcceptable 1 buy 4 (pos 100) fresh
unfolding init ◌+ℤ◌
check_new_order_iff_example = check_new_order_iff 1 buy 4 (pos 100) fresh (record {
  enumerator = refl;
  positive = omega arith;
  position = omega arith;
  after = omega arith;
  sums = omega arith;
})

-- One order is open.
abbrev one_open : RiskManager ℤ ℕ
one_open = run (sends 5 1 7 buy 4 (pos 100) ∷ []) fresh

one_open-IsBooked : IsBooked one_open
one_open-IsBooked =
    run-IsBooked (sends 5 1 7 buy 4 (pos 100) ∷ []) fresh (tt, tt) (init-IsBooked 0 limits 0)

-- The position has gone beyond its limit.
abbrev beyond : RiskManager ℤ ℕ
beyond = record one_open { position_tracker = record { position = pos 16; max_position = pos 15 } }

shutdown_clears_example :
    ((check_and_shutdown_if_needed beyond).is_shutdown ≡ true)
    × ((check_and_shutdown_if_needed beyond).in_shutdown ≡ false)
    × ((check_and_shutdown_if_needed beyond).open_orders ≡ [])
    × ((check_and_shutdown_if_needed beyond).exposure_tracker.pending_orders ≡ [])
    × ((b : Bool) → outstanding b (check_and_shutdown_if_needed beyond).exposure_tracker ≡ 0)
unfolding run step init send_new_order refresh_rate_window check_new_order check_added
    check_rate_limits would_exceed_exposure at_limit would_increase_abs_position would_exceed_limit
    moved submit_new_order check_and_shutdown_if_needed is_breached on_fill on_seq_num_update
    contains lookup insert erase get_buy_exposure get_sell_exposure add_u32 sub_u32 u32_of i32_of
    abs_i32 neg_i32 wrap32 ◌+ℤ◌ ◌-ℤ◌ Exposure.on_order_sent Exposure.on_fill Position.on_fill
    Pnl.on_fill Pnl.get_total_pnl Pnl.below_min_pnl
shutdown_clears_example =
    shutdown_clears agreeable-AcceptsDeletes beyond
      (record { accounted = one_open-IsBooked.accounted; covered = one_open-IsBooked.covered }) refl
      refl refl

abbrev shut : RiskManager ℤ ℕ
shut = record fresh { is_shutdown = true }

-- The exchange is asked for two deletions, and for nothing by the rest.
abbrev late_calls : List Call
late_calls =
    deletes 4
    ∷ sends 5 9 7 buy 1 (pos 100)
    ∷ modifies 6 9 buy 2 (pos 100)
    ∷ deletes 9
    ∷ cancels_all
    ∷ []

shutdown_is_final_example :
    WindsDown shut (run late_calls shut)
    × ((now id symbol : ℕ) (side : Side) (qty : ℕ) (price : ℤ)
        → (send_new_order now id symbol side qty price (run late_calls shut)).0 ≡ false)
    × ((now id : ℕ) (side : Side) (qty : ℕ) (price : ℤ)
        → (modify_order now id side qty price (run late_calls shut)).0 ≡ false)
shutdown_is_final_example = shutdown_is_final late_calls shut refl

-- Order 1 has been sent, and nothing of it is filled.
abbrev one_sent : RiskManager ℤ ℕ
one_sent = run (sends 5 1 7 buy 4 (pos 100) ∷ []) fresh

abbrev first : OpenOrderInfo
first = record { symbol = 7; side = buy; qty = 4; price = pos 100 }

one_sent-IsBooked : IsBooked one_sent
one_sent-IsBooked =
    run-IsBooked (sends 5 1 7 buy 4 (pos 100) ∷ []) fresh (tt, tt) (init-IsBooked 0 limits 0)

one_sent-CanModify : CanModify 1 4 4 (pos 100) (pos 100) first one_sent
unfolding run step init send_new_order refresh_rate_window check_new_order check_added
    check_rate_limits would_exceed_exposure at_limit would_increase_abs_position would_exceed_limit
    moved submit_new_order check_and_shutdown_if_needed is_breached on_fill on_seq_num_update
    contains lookup insert erase get_buy_exposure get_sell_exposure add_u32 sub_u32 u32_of i32_of
    abs_i32 neg_i32 wrap32 ◌+ℤ◌ ◌-ℤ◌ Exposure.on_order_sent Exposure.on_fill Position.on_fill
    Pnl.on_fill Pnl.get_total_pnl Pnl.below_min_pnl
one_sent-CanModify = record {
  booked = one_sent-IsBooked;
  up = refl;
  healthy = refl;
  is_open = refl;
  pending = refl;
  valid = refl;
  size = omega arith;
  taken = refl;
}

-- Three of four are filled, and the order is modified back to four.
reduction_unchecked_example :
    let (answer, r2) = modify_order 6 1 buy 4 (pos 100) (on_fill 1 3 (pos 100) false one_sent) in
    (answer ≡ true)
    × (pending_of true r2 + 4 ≡ pending_of true one_sent + 4)
    × (r2.position_tracker ≡ Position.on_fill buy 3 one_sent.position_tracker)
unfolding run step init send_new_order refresh_rate_window check_new_order check_added
    check_rate_limits would_exceed_exposure at_limit would_increase_abs_position would_exceed_limit
    moved submit_new_order check_and_shutdown_if_needed is_breached on_fill on_seq_num_update
    contains lookup insert erase get_buy_exposure get_sell_exposure add_u32 sub_u32 u32_of i32_of
    abs_i32 neg_i32 wrap32 ◌+ℤ◌ ◌-ℤ◌ Exposure.on_order_sent Exposure.on_fill Position.on_fill
    Pnl.on_fill Pnl.get_total_pnl Pnl.below_min_pnl
reduction_unchecked_example =
    reduction_unchecked 6 1 3 4 (pos 100) (pos 100) (pos 100) first one_sent one_sent-CanModify
      (omega arith) (omega arith) refl refl (omega arith)

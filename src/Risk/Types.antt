-- ===== src/Risk/Types.antt =====
-- The limits, outcomes and state of risk_manager.h, and the interface of iorder_sender.h.
use hftalgorithms.Base.{ℕ, Bool, false, []}
use hftalgorithms.Base.Int.{ℤ}
use hftalgorithms.Base.Dict.{Dict}
use hftalgorithms.Base.Double.{Double}
use hftalgorithms.Messages.{Side}
use hftalgorithms.Trackers.Position.{PositionTracker}
use hftalgorithms.Trackers.Exposure.{ExposureTracker}
use hftalgorithms.Trackers.Pnl.{PnlTracker}
use hftalgorithms.Trackers.Position
use hftalgorithms.Trackers.Exposure
use hftalgorithms.Trackers.Pnl

pub record RiskLimits (D : Type 0) : Type 0 where
  pub max_qty_per_order : ℕ
  pub max_qty_per_side : ℕ
  pub max_exposure : ℕ
  pub max_position : ℤ
  pub max_orders_per_second : ℕ
  pub max_orders_per_seq_num : ℕ
  pub max_unacked_orders : ℕ
  pub min_pnl : D
  pub min_valid_price : ℤ

pub data RiskResult : Type 0 where
  ok system_shutdown invalid_price qty_per_order_exceeded qty_per_side_exceeded : RiskResult
  exposure_exceeded position_limit_would_increase position_limit_exceeded : RiskResult
  rate_limit_per_second rate_limit_per_seq_num unacked_limit_exceeded : RiskResult
  duplicate_order_id unknown_order_id : RiskResult

-- `rc == RiskResult::OK`
abbrev pub is_ok : RiskResult → Bool
is_ok ok = Bool.true
is_ok _ = false

pub record OpenOrderInfo : Type 0 where
  pub symbol : ℕ
  pub side : Side
  pub qty : ℕ
  pub price : ℤ

-- The exchange as a state `S` that each call changes. A sender is taken not to call back into the
-- manager during a call.
pub record IOrderSender (S : Type 0) : Type 0 where
  pub send_new_order : ℕ → ℕ → Side → ℕ → ℤ → S → Bool × S
  pub delete_order : ℕ → S → Bool × S
  pub modify_order : ℕ → Side → ℕ → ℤ → S → Bool × S

-- Times are in nanoseconds of the steady clock.
pub record RiskManager (D S : Type 0) : Type 0 where
  pub sender : S
  pub limits : RiskLimits D
  pub position_tracker : PositionTracker
  pub exposure_tracker : ExposureTracker
  pub pnl_tracker : PnlTracker D
  pub open_orders : Dict OpenOrderInfo
  pub orders_this_second : ℕ
  pub second_window_start : ℕ
  pub orders_this_seq_num : ℕ
  pub last_seq_num : ℕ
  pub unacked_orders : ℕ
  pub is_shutdown : Bool
  pub in_shutdown : Bool

-- The constructor, called at time `now`.
unfoldable pub init : {D S : Type 0} ⦃d : Double D⦄ → S → RiskLimits D → ℕ → RiskManager D S
init sender limits now = record {
  sender = sender;
  limits = limits;
  position_tracker = Position.init limits.max_position;
  exposure_tracker = Exposure.init limits.max_exposure;
  pnl_tracker = Pnl.init limits.min_pnl;
  open_orders = [];
  orders_this_second = 0;
  second_window_start = now;
  orders_this_seq_num = 0;
  last_seq_num = 0;
  unacked_orders = 0;
  is_shutdown = false;
  in_shutdown = false;
}

-- ===== src/Risk/Rates.antt =====
-- The order rates that risk_manager.cpp keeps under their limits.
use hftalgorithms.Base.{ℕ, ◌≤◌, ◌<◌, ◌≡◌, arith}
use hftalgorithms.Base.Int.{u32_mod}
use hftalgorithms.Base.Double.{Double}
use hftalgorithms.Risk.Types.{RiskManager, IOrderSender, RiskLimits, init}
use hftalgorithms.Risk.Stable.{Stable}

module _ {D S : Type 0} where
  -- Each counter is within its limit, no order is unacknowledged between calls, and the limits are
  -- values of uint32_t.
  pub record IsPaced (r : RiskManager D S) : Type 0 where
    pub per_second : r.orders_this_second ≤ r.limits.max_orders_per_second
    pub per_seq_num : r.orders_this_seq_num ≤ r.limits.max_orders_per_seq_num
    pub acked : r.unacked_orders ≡ 0
    pub second_limit : r.limits.max_orders_per_second < u32_mod
    pub seq_num_limit : r.limits.max_orders_per_seq_num < u32_mod

module _ {D S : Type 0} ⦃d : Double D⦄ ⦃s : IOrderSender S⦄ where
  -- A new manager whose rate limits are values of uint32_t is paced.
  pub init-IsPaced :
      (sender : S) (limits : RiskLimits D) (now : ℕ)
      → limits.max_orders_per_second < u32_mod
      → limits.max_orders_per_seq_num < u32_mod
      → IsPaced (init sender limits now)
  unfolding init
  init-IsPaced sender limits now h k = ground arith

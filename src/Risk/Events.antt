-- ===== src/Risk/Events.antt =====
-- A history of the risk manager: the calls that its owner makes of risk_manager.cpp, one by one.
use hftalgorithms.Base.{ℕ, Bool, List, [], ◌∷◌}
use hftalgorithms.Base.Int.{ℤ}
use hftalgorithms.Base.Double.{Double}
use hftalgorithms.Messages.{Side}
use hftalgorithms.Risk.Types.{RiskManager, IOrderSender}
use hftalgorithms.Risk.Entry.{
  send_new_order, modify_order, delete_order, cancel_all_open_orders, on_fill, on_reject, on_close,
  update_mark_price, on_seq_num_update,
}

-- `sends` and `modifies` begin with the time of the call.
pub data Call : Type 0 where
  sends : ℕ → ℕ → ℕ → Side → ℕ → ℤ → Call
  modifies : ℕ → ℕ → Side → ℕ → ℤ → Call
  deletes : ℕ → Call
  cancels_all : Call
  fills : ℕ → ℕ → ℤ → Bool → Call
  rejects : ℕ → Call
  closes : ℕ → Call
  marks : ℤ → Call
  observes : ℕ → Call

module _ {D S : Type 0} ⦃d : Double D⦄ ⦃s : IOrderSender S⦄ where
  unfoldable pub step : Call → RiskManager D S → RiskManager D S
  step (sends now id symbol side qty price) r = (send_new_order now id symbol side qty price r).1
  step (modifies now id side qty price) r = (modify_order now id side qty price r).1
  step (deletes id) r = (delete_order id r).1
  step cancels_all r = cancel_all_open_orders r
  step (fills id qty price closed) r = on_fill id qty price closed r
  step (rejects id) r = on_reject id r
  step (closes id) r = on_close id r
  step (marks price) r = update_mark_price price r
  step (observes seq_num) r = on_seq_num_update seq_num r

  unfoldable pub run : List Call → RiskManager D S → RiskManager D S
  run [] r = r
  run (c ∷ cs) r = run cs (step c r)

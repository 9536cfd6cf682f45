-- ===== src/Risk/Fixed.antt =====
-- No call of risk_manager.cpp changes the exposure limit.
use hftalgorithms.Base.{ℕ, ◌≡◌, List, [], ◌∷◌, if_keeps, leb, ◌==◌, ◌-◌, ◌/◌, ◌∙◌}
use hftalgorithms.Base.Double.{Double}
use hftalgorithms.Trackers.Exposure
use hftalgorithms.Trackers.Exposure.Pending.{max_removed}
use hftalgorithms.Risk.Types.{RiskManager, IOrderSender}
use hftalgorithms.Risk.Entry.{
  refresh_rate_window, on_seq_num_update, on_reject, on_close, update_mark_price,
}
use hftalgorithms.Risk.Histories.{max_filled}
use hftalgorithms.Risk.Stable.{
  Stable, delete_order-Stable, cancel_all-Stable, send_new_order-Stable, modify_order-Stable,
  on_fill-Stable,
}
use hftalgorithms.Risk.Events.{
  Call, sends, modifies, deletes, cancels_all, fills, rejects, closes, marks, observes, step, run,
}

abbrev pub HasLimit : {D S : Type 0} → ℕ → RiskManager D S → Type 0
HasLimit m r = r.exposure_tracker.max_exposure ≡ m

HasLimit-Stable : {D S : Type 0} (m : ℕ) → Stable {D = D} {S = S} (HasLimit m)
HasLimit-Stable m = record {
  on_sender = λ sender r h. h;
  on_forget = λ id r h. max_removed id r.exposure_tracker ∙ h;
  on_flags = λ shut busy r h. h;
}

module _ {D S : Type 0} ⦃d : Double D⦄ ⦃s : IOrderSender S⦄ where
  refresh-HasLimit :
      (m now : ℕ) (r : RiskManager D S) → HasLimit m r → HasLimit m (refresh_rate_window now r)
  unfolding refresh_rate_window
  refresh-HasLimit m now r h =
      if_keeps (HasLimit m) (leb 1000 ((now - r.second_window_start) / 1_000_000)) h h

  step-HasLimit : (m : ℕ) (c : Call) (r : RiskManager D S) → HasLimit m r → HasLimit m (step c r)
  unfolding step Exposure.on_order_sent
  step-HasLimit m (sends now id symbol side qty price) r h =
      let ready = refresh-HasLimit m now r h in
      send_new_order-Stable (HasLimit m) (HasLimit-Stable m) now id symbol side qty price r ready
        λ e f sender. (ready, ready)
  step-HasLimit m (modifies now id side qty price) r h =
      let ready = refresh-HasLimit m now r h in
      modify_order-Stable (HasLimit m) (HasLimit-Stable m) now id side qty price r ready
        λ e f old g sender.
          (ready, max_removed id (refresh_rate_window now r).exposure_tracker ∙ ready)
  step-HasLimit m (deletes id) r h = delete_order-Stable (HasLimit m) (HasLimit-Stable m) id r h
  step-HasLimit m cancels_all r h = cancel_all-Stable (HasLimit m) (HasLimit-Stable m) r h
  step-HasLimit m (fills id qty price closed) r h =
      on_fill-Stable (HasLimit m) (HasLimit-Stable m) id qty price closed r h
        λ o e. max_filled id qty r.exposure_tracker ∙ h
  step-HasLimit m (rejects id) r h = unfold on_reject in (max_removed id r.exposure_tracker ∙ h)
  step-HasLimit m (closes id) r h = unfold on_close in (max_removed id r.exposure_tracker ∙ h)
  step-HasLimit m (marks price) r h = unfold update_mark_price in h
  step-HasLimit m (observes seq_num) r h =
      unfold on_seq_num_update in if_keeps (HasLimit m) (seq_num == r.last_seq_num) h h

  pub run-HasLimit :
      (m : ℕ) (cs : List Call) (r : RiskManager D S) → HasLimit m r → HasLimit m (run cs r)
  unfolding run
  run-HasLimit m [] r h = h
  run-HasLimit m (c ∷ cs) r h = run-HasLimit m cs (step c r) (step-HasLimit m c r h)

-- ===== src/Risk/Books.antt =====
-- The books of the risk manager: what the exposure tracker counts belongs to open orders.
use hftalgorithms.Base.{
  ℕ, ◌-◌, ◌/◌, ◌≡◌, refl, Bool, true, false, none, some, List, [], ◌∷◌, arith, leb, ◌==◌, if_keeps,
}
use hftalgorithms.Base.Int.{ℤ}
use hftalgorithms.Base.Double.{Double}
use hftalgorithms.Base.Dict.{lookup, contains, lookup-insert, lookup-erase}
use hftalgorithms.Messages.{Side}
use hftalgorithms.Trackers.Exposure.{ExposureTracker, PendingOrder}
use hftalgorithms.Trackers.Exposure
use hftalgorithms.Trackers.Exposure.Accounting.{
  IsAccounted, init-IsAccounted, on_order_sent-IsAccounted, on_order_removed-IsAccounted,
  on_fill-IsAccounted,
}
use hftalgorithms.Trackers.Exposure.Pending.{
  lookup_same, pending-removed, fill-covered, fill-closed,
}
use hftalgorithms.Risk.Types.{RiskManager, IOrderSender, OpenOrderInfo, is_ok, RiskLimits, init}
use hftalgorithms.Risk.Checks.{check_new_order, check_added}
use hftalgorithms.Risk.Entry.{
  refresh_rate_window, on_seq_num_update, forget, register, unregister, on_reject, on_close,
  update_mark_price, counted, book_fill,
}
use hftalgorithms.Risk.Stable.{
  Stable, delete_order-Stable, cancel_all-Stable, send_new_order-Stable, modify_order-Stable,
  on_fill-Stable,
}
use hftalgorithms.Risk.Events.{
  Call, sends, modifies, deletes, cancels_all, fills, rejects, closes, marks, observes, step, run,
}

module _ {D S : Type 0} where
  -- The exposure tracker's accounts are right, and an order that is not open is not pending.
  pub record IsBooked (r : RiskManager D S) : Type 0 where
    pub accounted : IsAccounted r.exposure_tracker
    pub covered :
        (id : ℕ)
        → lookup id r.open_orders ≡ none
        → lookup id r.exposure_tracker.pending_orders ≡ none

  forget-IsBooked : (id : ℕ) (r : RiskManager D S) → IsBooked r → IsBooked (forget id r)
  forget-IsBooked id r b = record {
    accounted = on_order_removed-IsAccounted id r.exposure_tracker b.accounted;
    covered = λ j e. ground (
      arith,
      pending-removed id j r.exposure_tracker,
      lookup-erase id j r.open_orders,
      b.covered j,
    );
  }

  pub register-IsBooked :
      (id : ℕ) (o : OpenOrderInfo) (r : RiskManager D S)
      → lookup id r.exposure_tracker.pending_orders ≡ none
      → IsBooked r
      → IsBooked (register id o r)
  register-IsBooked id o r fresh b = record {
    accounted =
        on_order_sent-IsAccounted id o.side o.qty o.price r.exposure_tracker fresh b.accounted;
    covered = λ j e.
        unfold Exposure.on_order_sent in
        ground (
          arith,
          lookup-insert id j (record { side = o.side; qty = o.qty; price = o.price })
              r.exposure_tracker.pending_orders,
          lookup-insert id j o r.open_orders,
          b.covered j,
        );
  }

  -- A fill that closes an order is for all that the order has left.
  abbrev pub IsWhole : ℕ → ℕ → Bool → RiskManager D S → Type 0
  IsWhole id qty closed r =
      (o : PendingOrder)
      → closed ≡ true
      → lookup id r.exposure_tracker.pending_orders ≡ some o
      → o.qty ≡ qty

module _ {D S : Type 0} where
  pub unregistered :
      (id : ℕ) (r : RiskManager D S)
      → lookup id (unregister id r).exposure_tracker.pending_orders ≡ none
  unregistered id r = ground (arith, pending-removed id id r.exposure_tracker)

  pub unregister-IsBooked : (id : ℕ) (r : RiskManager D S) → IsBooked r → IsBooked (unregister id r)
  unregister-IsBooked id r b = record {
    accounted = on_order_removed-IsAccounted id r.exposure_tracker b.accounted;
    covered = λ j e. ground (arith, pending-removed id j r.exposure_tracker, b.covered j);
  }

module _ {D S : Type 0} ⦃d : Double D⦄ where
  pub fill-IsBooked :
      (id qty : ℕ) (side : Side) (price : ℤ) (closed : Bool) (r : RiskManager D S)
      → IsWhole id qty closed r
      → IsBooked r
      → IsBooked (book_fill id side qty price closed r)
  fill-IsBooked id qty side price true r whole b = record {
    accounted = on_fill-IsAccounted id qty r.exposure_tracker b.accounted;
    covered = λ j e. ground (
      arith,
      lookup-erase id j r.open_orders,
      fill-covered id qty r.exposure_tracker j,
      fill-closed id qty r.exposure_tracker (λ o f. whole o refl f),
      lookup_same id j (Exposure.on_fill id qty r.exposure_tracker).pending_orders,
      b.covered j,
    );
  }
  fill-IsBooked id qty side price false r whole b = record {
    accounted = on_fill-IsAccounted id qty r.exposure_tracker b.accounted;
    covered = λ j e. fill-covered id qty r.exposure_tracker j (b.covered j e);
  }

-- What the exchange owes the manager for its books to stay right, call by call.
abbrev pub IsHonest : {D S : Type 0} → Call → RiskManager D S → Type 0
IsHonest (fills id qty price closed) r = IsWhole id qty closed r
IsHonest (sends now id symbol side qty price) r = Unit
IsHonest (modifies now id side qty price) r = Unit
IsHonest (deletes id) r = Unit
IsHonest cancels_all r = Unit
IsHonest (rejects id) r = Unit
IsHonest (closes id) r = Unit
IsHonest (marks price) r = Unit
IsHonest (observes seq_num) r = Unit

module _ {D S : Type 0} where
  pub IsBooked-Stable : Stable {D = D} {S = S} IsBooked
  IsBooked-Stable = record {
    on_sender = λ sender r b. record { accounted = b.accounted; covered = b.covered };
    on_forget = forget-IsBooked;
    on_flags = λ shut busy r b. record { accounted = b.accounted; covered = b.covered };
  }

  refresh-IsBooked :
      (now : ℕ) (r : RiskManager D S) → IsBooked r → IsBooked (refresh_rate_window now r)
  unfolding refresh_rate_window
  refresh-IsBooked now r b =
      if_keeps IsBooked (leb 1000 ((now - r.second_window_start) / 1_000_000))
        (record { accounted = b.accounted; covered = b.covered }) b

  observe-IsBooked :
      (seq_num : ℕ) (r : RiskManager D S) → IsBooked r → IsBooked (on_seq_num_update seq_num r)
  unfolding on_seq_num_update
  observe-IsBooked seq_num r b =
      if_keeps IsBooked (seq_num == r.last_seq_num) b
        (record { accounted = b.accounted; covered = b.covered })

  pub unknown_of_ok :
      (id : ℕ) (side : Side) (qty : ℕ) (price : ℤ) (r : RiskManager D S)
      → is_ok (check_new_order id side qty price r) ≡ true
      → lookup id r.open_orders ≡ none
  unfolding check_new_order check_added contains
  unknown_of_ok id side qty price r e = ground arith

module _ {D S : Type 0} ⦃d : Double D⦄ ⦃s : IOrderSender S⦄ where
  pub init-IsBooked :
      (sender : S) (limits : RiskLimits D) (now : ℕ) → IsBooked (init sender limits now)
  unfolding init lookup
  init-IsBooked sender limits now = record {
    accounted = init-IsAccounted limits.max_exposure;
    covered = λ id e. refl;
  }

  step-IsBooked : (c : Call) (r : RiskManager D S) → IsHonest c r → IsBooked r → IsBooked (step c r)
  unfolding step
  step-IsBooked (sends now id symbol side qty price) r h b =
      let ready = refresh-IsBooked now r b in
      send_new_order-Stable IsBooked IsBooked-Stable now id symbol side qty price r ready
        λ e f sender.
          let r' = counted sender (refresh_rate_window now r) in
          let kept : IsBooked r' = record {
            accounted = ready.accounted;
            covered = ready.covered;
          } in
          (
            kept,
            register-IsBooked id _ r'
                (ready.covered id (unknown_of_ok id side qty price (refresh_rate_window now r) e))
                kept,
          )
  step-IsBooked (modifies now id side qty price) r h b =
      let ready = refresh-IsBooked now r b in
      modify_order-Stable IsBooked IsBooked-Stable now id side qty price r ready λ e f old g sender.
        let r' = counted sender (refresh_rate_window now r) in
        let kept : IsBooked r' = record { accounted = ready.accounted; covered = ready.covered } in
        (
          kept,
          register-IsBooked id _ (unregister id r') (unregistered id r')
              (unregister-IsBooked id r' kept),
        )
  step-IsBooked (deletes id) r h b = delete_order-Stable IsBooked IsBooked-Stable id r b
  step-IsBooked cancels_all r h b = cancel_all-Stable IsBooked IsBooked-Stable r b
  step-IsBooked (fills id qty price closed) r h b =
      on_fill-Stable IsBooked IsBooked-Stable id qty price closed r b
        λ o e. fill-IsBooked id qty o.side price closed r h b
  step-IsBooked (rejects id) r h b = unfold on_reject in forget-IsBooked id r b
  step-IsBooked (closes id) r h b = unfold on_close in forget-IsBooked id r b
  step-IsBooked (marks price) r h b =
      unfold update_mark_price in record { accounted = b.accounted; covered = b.covered }
  step-IsBooked (observes seq_num) r h b = observe-IsBooked seq_num r b

  -- Every call of a history finds the exchange honest.
  abbrev pub IsHonestRun : List Call → RiskManager D S → Type 0
  IsHonestRun [] r = Unit
  IsHonestRun (c ∷ cs) r = IsHonest c r × IsHonestRun cs (step c r)

  -- Over any history in which every closing fill is for all that its order has left, each outstanding
  -- quantity is what the pending orders of its side have left, modulo 2 ^ 32, and only open orders
  -- are pending.
  pub run-IsBooked :
      (cs : List Call) (r : RiskManager D S) → IsHonestRun cs r → IsBooked r → IsBooked (run cs r)
  unfolding run
  run-IsBooked [] r h b = b
  run-IsBooked (c ∷ cs) r h b = run-IsBooked cs (step c r) h.1 (step-IsBooked c r h.0 b)

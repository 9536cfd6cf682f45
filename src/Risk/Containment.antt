-- ===== src/Risk/Containment.antt =====
-- The exposure limit of risk_manager.cpp bounds how far the position can ever move.
use hftalgorithms.Base.{ℕ, ◌+◌, ◌≤◌, ◌<◌, ◌≡◌, Bool, true, false, none, some, arith, if◌then◌else◌}
use hftalgorithms.Base.Int.{ℤ, pos_part, neg_part, IsSymmetric}
use hftalgorithms.Base.Dict.{lookup, lookup-insert, lookup-erase, total, total-insert}
use hftalgorithms.Messages.{is_buy}
use hftalgorithms.Trackers.Exposure.{ExposureTracker, PendingOrder, would_exceed_exposure}
use hftalgorithms.Trackers.Exposure
use hftalgorithms.Trackers.Exposure.Accounting.{working, outstanding}
use hftalgorithms.Trackers.Exposure.Pending.{pending-removed, total-removed, max_removed}
use hftalgorithms.Risk.Types.{RiskManager, OpenOrderInfo}
use hftalgorithms.Risk.Entry.{forget, register, unregister}
use hftalgorithms.Risk.Stable.{Stable}
use hftalgorithms.Risk.Books.{IsBooked, IsBooked-Stable, register-IsBooked, unregister-IsBooked}

-- The distance of a position from zero on a side; `true` is long.
abbrev pub reach_of : Bool → ℤ → ℕ
reach_of s z = if s then pos_part z else neg_part z

-- Where the position could end on a side, if all pending orders of that side filled.
abbrev pub exposure_of : {D S : Type 0} → Bool → RiskManager D S → ℕ
exposure_of s r =
    reach_of s r.position_tracker.position + total (working s) r.exposure_tracker.pending_orders

module _ {D S : Type 0} where
  -- The books are right, an open order and its pending entry are on one side, neither side's
  -- exposure is above the limit, and the limits on exposure and order size are below 2 ^ 31.
  pub record IsContained (r : RiskManager D S) : Type 0 where
    pub booked : IsBooked r
    pub sides :
        (id : ℕ) (o : OpenOrderInfo) (p : PendingOrder)
        → lookup id r.open_orders ≡ some o
        → lookup id r.exposure_tracker.pending_orders ≡ some p
        → is_buy o.side ≡ is_buy p.side
    pub room : (s : Bool) → exposure_of s r ≤ r.exposure_tracker.max_exposure
    pub exposure_limit : r.exposure_tracker.max_exposure < 0x8000_0000
    pub order_limit : r.limits.max_qty_per_order < 0x8000_0000

  pub contained-IsSymmetric :
      (r : RiskManager D S) → IsContained r → IsSymmetric r.position_tracker.position
  contained-IsSymmetric r c = omega (arith, c.room true, c.room false, c.exposure_limit)

  pub contained-outstanding :
      (s : Bool) (r : RiskManager D S)
      → IsContained r
      → outstanding s r.exposure_tracker ≡ total (working s) r.exposure_tracker.pending_orders
  contained-outstanding s r c = omega (arith, c.booked.accounted.sums s, c.room s, c.exposure_limit)

  pub forget-IsContained :
      (id : ℕ) (r : RiskManager D S) → IsContained r → IsContained (forget id r)
  forget-IsContained id r c = record {
    booked = IsBooked-Stable.on_forget id r c.booked;
    sides = λ j o p e f. ground (
      arith,
      c.sides j o p,
      lookup-erase id j r.open_orders,
      pending-removed id j r.exposure_tracker,
    );
    room = λ s. ground (
      arith,
      c.room s,
      max_removed id r.exposure_tracker,
      total-removed s id r.exposure_tracker c.booked.accounted,
    );
    exposure_limit = rw max_removed c.exposure_limit;
    order_limit = c.order_limit;
  }

  pub unregister-IsContained :
      (id : ℕ) (r : RiskManager D S) → IsContained r → IsContained (unregister id r)
  unregister-IsContained id r c = record {
    booked = unregister-IsBooked id r c.booked;
    sides = λ j o p e f. ground (arith, c.sides j o p, pending-removed id j r.exposure_tracker);
    room = λ s. ground (
      arith,
      c.room s,
      max_removed id r.exposure_tracker,
      total-removed s id r.exposure_tracker c.booked.accounted,
    );
    exposure_limit = rw max_removed c.exposure_limit;
    order_limit = c.order_limit;
  }

  pub register-IsContained :
      (id : ℕ) (o : OpenOrderInfo) (r : RiskManager D S)
      → lookup id r.exposure_tracker.pending_orders ≡ none
      → exposure_of (is_buy o.side) r + o.qty ≤ r.exposure_tracker.max_exposure
      → IsContained r
      → IsContained (register id o r)
  register-IsContained id o r fresh fits c = record {
    booked = register-IsBooked id o r fresh c.booked;
    sides = λ j o' p e f.
        unfold Exposure.on_order_sent in
        ground (
          arith,
          c.sides j o' p,
          lookup-insert id j o r.open_orders,
          lookup-insert id j pending r.exposure_tracker.pending_orders,
        );
    room = λ s.
        unfold Exposure.on_order_sent in
        ground (
          arith,
          c.room s,
          fits,
          total-insert (working s) id pending r.exposure_tracker.pending_orders,
        );
    exposure_limit = unfold Exposure.on_order_sent in c.exposure_limit;
    order_limit = c.order_limit;
  }
    where
      pending : PendingOrder
      pending = record { side = o.side; qty = o.qty; price = o.price }

  pub IsContained-Stable : Stable {D = D} {S = S} IsContained
  IsContained-Stable = record {
    on_sender = λ sender r c. record {
      booked = IsBooked-Stable.on_sender sender r c.booked;
      sides = c.sides;
      room = c.room;
      exposure_limit = c.exposure_limit;
      order_limit = c.order_limit;
    };
    on_forget = forget-IsContained;
    on_flags = λ shut busy r c. record {
      booked = IsBooked-Stable.on_flags shut busy r c.booked;
      sides = c.sides;
      room = c.room;
      exposure_limit = c.exposure_limit;
      order_limit = c.order_limit;
    };
  }

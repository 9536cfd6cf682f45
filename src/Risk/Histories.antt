-- ===== src/Risk/Histories.antt =====
-- Over any history the exposures stay within the limit, and so does the position.
use hftalgorithms.Base.{
  ℕ, ◌+◌, ◌≤◌, ◌<◌, ◌≡◌, Bool, true, false, some, arith, inl, inr, not, if◌then◌else◌, Option-cases,
}
use hftalgorithms.Base.Int.{ℤ, sub_u32, u32_mod, IsSymmetric, IsI32, ◌+ℤ◌, ◌-ℤ◌}
use hftalgorithms.Base.Double.{Double}
use hftalgorithms.Base.Dict.{
  lookup, erase, lookup-insert, lookup-erase, total, total-erase, total-insert,
}
use hftalgorithms.Messages.{Side, is_buy}
use hftalgorithms.Trackers.Position
use hftalgorithms.Trackers.Position.{target, moved, moved-eq-target}
use hftalgorithms.Trackers.Exposure.{ExposureTracker, PendingOrder}
use hftalgorithms.Trackers.Exposure
use hftalgorithms.Trackers.Exposure.Accounting.{IsAccounted, working}
use hftalgorithms.Trackers.Exposure.Pending.{lookup_same}
use hftalgorithms.Risk.Types.{RiskManager, OpenOrderInfo}
use hftalgorithms.Risk.Entry.{book_fill}
use hftalgorithms.Risk.Books.{fill-IsBooked}
use hftalgorithms.Risk.Containment.{IsContained, reach_of, contained-IsSymmetric}

-- A fill of at most what the pending order has left, and of all of it if it closes the order.
abbrev pub IsBacked : {D S : Type 0} → ℕ → ℕ → Bool → RiskManager D S → Type 0
IsBacked id qty closed r =
    (o : OpenOrderInfo)
    → lookup id r.open_orders ≡ some o
    → (p : PendingOrder) × (lookup id r.exposure_tracker.pending_orders ≡ some p)
      × (qty ≤ p.qty)
      × (closed ≡ true → p.qty ≡ qty)

total-filled :
    (s : Bool) (id qty : ℕ) (t : ExposureTracker) (p : PendingOrder)
    → IsAccounted t
    → lookup id t.pending_orders ≡ some p
    → qty ≤ p.qty
    → p.qty < u32_mod
    → total (working s) (Exposure.on_fill id qty t).pending_orders
        + working s (record p { qty = qty })
      ≡ total (working s) t.pending_orders
unfolding Exposure.on_fill sub_u32
total-filled s id qty t p a e h k = ground (
  arith,
  e,
  total-erase (working s) id t.pending_orders a.unique,
  total-insert (working s) id (record p { qty = sub_u32 p.qty qty }) t.pending_orders,
)

pub max_filled :
    (id qty : ℕ) (t : ExposureTracker) → (Exposure.on_fill id qty t).max_exposure ≡ t.max_exposure
unfolding Exposure.on_fill
max_filled id qty t = ground arith

-- A fill leaves no entry that was not there on the same side.
filled_side :
    (id qty j : ℕ) (t : ExposureTracker) (p : PendingOrder) (side : Bool)
    → ((p' : PendingOrder) → lookup j t.pending_orders ≡ some p' → side ≡ is_buy p'.side)
    → lookup j (Exposure.on_fill id qty t).pending_orders ≡ some p
    → side ≡ is_buy p.side
unfolding Exposure.on_fill
filled_side id qty j t p side before e = elim (Option-cases (lookup id t.pending_orders)) [
  | inl f ↦ before p (rw (f, Exposure.on_fill) at e)
  | inr (o, f) ↦ ground (
    arith,
    e,
    f,
    before p,
    before o,
    lookup_same id j t.pending_orders,
    lookup-erase id j t.pending_orders,
    lookup-insert id j (record o { qty = sub_u32 o.qty qty }) t.pending_orders,
  )
]

target-IsI32 :
    (side : Side) (qty : ℕ) (z : ℤ)
    → IsSymmetric z
    → reach_of (is_buy side) z + qty < 0x8000_0000
    → IsI32 (target side qty z)
unfolding ◌+ℤ◌ ◌-ℤ◌
target-IsI32 side qty z h k = ground arith

reach-target :
    (s : Bool) (side : Side) (qty : ℕ) (z : ℤ)
    → reach_of s (target side qty z)
      ≤ reach_of s z + (if (if s then is_buy side else not (is_buy side)) then qty else 0)
unfolding ◌+ℤ◌ ◌-ℤ◌
reach-target true side qty z = ground arith
reach-target false side qty z = ground arith

reach-moved :
    (s : Bool) (side : Side) (qty : ℕ) (z : ℤ)
    → IsSymmetric z
    → reach_of (is_buy side) z + qty < 0x8000_0000
    → reach_of s (moved side qty z)
      ≤ reach_of s z + (if (if s then is_buy side else not (is_buy side)) then qty else 0)
reach-moved s side qty z h k =
    rw (moved-eq-target side qty z (omega (arith, h)) (target-IsI32 side qty z h k))
      (reach-target s side qty z)

-- The fill of a contained manager.
module _ {D S : Type 0} ⦃d : Double D⦄ where
  pub fill-IsContained :
      (id qty : ℕ) (price : ℤ) (closed : Bool) (r : RiskManager D S) (o : OpenOrderInfo)
      → lookup id r.open_orders ≡ some o
      → IsBacked id qty closed r
      → IsContained r
      → IsContained (book_fill id o.side qty price closed r)
  fill-IsContained id qty price closed r o e backed c = record {
    booked = fill-IsBooked id qty o.side price closed r whole c.booked;
    sides = λ j o' p' f g.
        filled_side id qty j r.exposure_tracker p' (is_buy o'.side)
          (λ p* g*. c.sides j o' p* (still_open j o' f) g*) g;
    room = λ s.
        unfold Position.on_fill in
        ground (
          arith,
          c.room s,
          c.sides id o p e found,
          max_filled id qty r.exposure_tracker,
          total-filled s id qty r.exposure_tracker p c.booked.accounted found (backed o e).2 small,
          reach-moved s o.side qty r.position_tracker.position (contained-IsSymmetric r c) near,
        );
    exposure_limit = rw max_filled c.exposure_limit;
    order_limit = c.order_limit;
  }
    where
      p : PendingOrder
      p = (backed o e).0

      found : lookup id r.exposure_tracker.pending_orders ≡ some p
      found = (backed o e).1

      whole :
          (q : PendingOrder)
          → closed ≡ true
          → lookup id r.exposure_tracker.pending_orders ≡ some q
          → q.qty ≡ qty
      whole q done f = ground (arith, found, f, (backed o e).3 done)

      held :
          working (is_buy p.side) p
          ≤ total (working (is_buy p.side)) r.exposure_tracker.pending_orders
      held = ground (
        arith,
        found,
        total-erase (working (is_buy p.side)) id r.exposure_tracker.pending_orders
            c.booked.accounted.unique,
      )

      small : p.qty < u32_mod
      small = ground (arith, held, c.room (is_buy p.side), c.exposure_limit)

      near : reach_of (is_buy o.side) r.position_tracker.position + qty < 0x8000_0000
      near = ground (
        arith,
        held,
        c.sides id o p e found,
        c.room (is_buy p.side),
        c.exposure_limit,
        (backed o e).2,
      )

      still_open :
          (j : ℕ) (o' : OpenOrderInfo)
          → lookup j (if closed then erase id r.open_orders else r.open_orders) ≡ some o'
          → lookup j r.open_orders ≡ some o'
      still_open j o' f = ground (arith, lookup-erase id j r.open_orders)

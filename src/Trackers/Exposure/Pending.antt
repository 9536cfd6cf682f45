-- ===== src/Trackers/Exposure/Pending.antt =====
-- Which orders the exposure tracker has pending after each of its calls.
use hftalgorithms.Base.{
  ◌+◌, ℕ, ◌≡◌, ap, Bool, none, some, arith, inl, inr, ◌==◌, if◌then◌else◌, Option-cases,
}
use hftalgorithms.Base.Int.{sub_u32}
use hftalgorithms.Base.Dict.{
  Dict, lookup, lookup-insert, lookup-erase, total, measured, total-erase,
}
use hftalgorithms.Trackers.Exposure.Accounting.{IsAccounted, working}
use hftalgorithms.Trackers.Exposure.{ExposureTracker, PendingOrder, on_order_removed, on_fill}

pub lookup_same : (i j : ℕ) (m : Dict PendingOrder) → i ≡ j → lookup i m ≡ lookup j m
lookup_same i j m e = ap (λ k. lookup k m) e

-- `on_order_removed` takes the order's entry out of the pending orders.
pub pending-removed :
    (id j : ℕ) (t : ExposureTracker)
    → lookup j (on_order_removed id t).pending_orders
      ≡ (if id == j then none else lookup j t.pending_orders)
unfolding on_order_removed
pending-removed id j t = elim (Option-cases (lookup id t.pending_orders)) [
  | inl e ↦ rw (e, on_order_removed) (ground (arith, e, lookup_same id j t.pending_orders))
  | inr (o, e) ↦ rw (e, on_order_removed) (lookup-erase id j t.pending_orders)
]

pub fill-covered :
    (id qty : ℕ) (t : ExposureTracker) (j : ℕ)
    → lookup j t.pending_orders ≡ none
    → lookup j (on_fill id qty t).pending_orders ≡ none
unfolding on_fill
fill-covered id qty t j e = elim (Option-cases (lookup id t.pending_orders)) [
  | inl f ↦ rw (f, on_fill) e
  | inr (o, f) ↦ ground (
    arith,
    lookup_same id j t.pending_orders,
    lookup-erase id j t.pending_orders,
    lookup-insert id j (record o { qty = sub_u32 o.qty qty }) t.pending_orders,
  )
]

pub fill-closed :
    (id qty : ℕ) (t : ExposureTracker)
    → ((o : PendingOrder) → lookup id t.pending_orders ≡ some o → o.qty ≡ qty)
    → lookup id (on_fill id qty t).pending_orders ≡ none
unfolding on_fill sub_u32
fill-closed id qty t whole = elim (Option-cases (lookup id t.pending_orders)) [
  | inl f ↦ rw (f, on_fill) f
  | inr (o, f) ↦ ground (arith, whole o f, lookup-erase id id t.pending_orders)
]

pub total-removed :
    (s : Bool) (id : ℕ) (t : ExposureTracker)
    → IsAccounted t
    → total (working s) (on_order_removed id t).pending_orders
        + measured (working s) (lookup id t.pending_orders)
      ≡ total (working s) t.pending_orders
unfolding on_order_removed
total-removed s id t a = elim (Option-cases (lookup id t.pending_orders)) [
  | inl e ↦ rw (e, on_order_removed) (omega arith)
  | inr (o, e) ↦ ground (arith, e, total-erase (working s) id t.pending_orders a.unique)
]

pub max_removed :
    (id : ℕ) (t : ExposureTracker) → (on_order_removed id t).max_exposure ≡ t.max_exposure
unfolding on_order_removed
max_removed id t = ground arith

-- ===== src/Trackers/Exposure/Accounting.antt =====
-- The outstanding quantities of the exposure tracker against the orders it has pending.
use hftalgorithms.Base.{
  ℕ, ◌%◌, ◌≡◌, Bool, none, arith, inl, inr, ◌==◌, if◌then◌else◌, Bool-cases, Option-cases, not,
}
use hftalgorithms.Base.Int.{ℤ, add_u32, sub_u32, u32_mod}
use hftalgorithms.Base.Dict.{
  total, IsUnique, lookup, insert-IsUnique, erase-IsUnique, total-insert, total-erase,
}
use hftalgorithms.Messages.{Side, is_buy}
use hftalgorithms.Trackers.Exposure.{
  PendingOrder, ExposureTracker, init, on_order_sent, on_order_removed, on_fill,
}

-- What a pending order has working on a side; `true` is the buy side.
abbrev pub working : Bool → PendingOrder → ℕ
working s o = if (if s then is_buy o.side else not (is_buy o.side)) then o.qty else 0

abbrev pub outstanding : Bool → ExposureTracker → ℕ
outstanding s t = if s then t.outstanding_buy_qty else t.outstanding_sell_qty

-- No order id stands twice, and each outstanding quantity is what the pending orders of its side
-- have left, modulo 2 ^ 32.
pub record IsAccounted (t : ExposureTracker) : Type 0 where
  pub unique : IsUnique t.pending_orders
  pub sums : (s : Bool) → outstanding s t ≡ total (working s) t.pending_orders % u32_mod

pub init-IsAccounted : (max_exposure : ℕ) → IsAccounted (init max_exposure)
unfolding total
init-IsAccounted m = record { unique = tt; sums = λ s. ground arith }

-- Sending an order keeps the accounts, if no order with its id is pending.
pub on_order_sent-IsAccounted :
    (order_id : ℕ) (side : Side) (qty : ℕ) (price : ℤ) (t : ExposureTracker)
    → lookup order_id t.pending_orders ≡ none
    → IsAccounted t
    → IsAccounted (on_order_sent order_id side qty price t)
unfolding on_order_sent add_u32
on_order_sent-IsAccounted order_id side qty price t fresh a = record {
  unique = insert-IsUnique order_id o t.pending_orders a.unique;
  sums = λ s. ground (arith, a.sums s, total-insert (working s) order_id o t.pending_orders);
}
  where
    o : PendingOrder
    o = record { side = side; qty = qty; price = price }

-- Removing an order keeps the accounts, whether it is pending or not.
pub on_order_removed-IsAccounted :
    (order_id : ℕ) (t : ExposureTracker) → IsAccounted t → IsAccounted (on_order_removed order_id t)
unfolding on_order_removed sub_u32
on_order_removed-IsAccounted order_id t a = elim (Option-cases (lookup order_id t.pending_orders)) [
  | inl e ↦ rw (e, on_order_removed) a
  | inr (o, e) ↦
      rw (e, on_order_removed)
        (record {
          unique = erase-IsUnique order_id t.pending_orders a.unique;
          sums = λ s.
              ground (arith, a.sums s, total-erase (working s) order_id t.pending_orders a.unique);
        })
]

-- A fill keeps the accounts, also a fill for more than the order has left.
pub on_fill-IsAccounted :
    (order_id qty : ℕ) (t : ExposureTracker) → IsAccounted t → IsAccounted (on_fill order_id qty t)
unfolding on_fill
on_fill-IsAccounted order_id qty t a = elim (Option-cases (lookup order_id t.pending_orders)) [
  | inl e ↦ rw (e, on_fill) a
  | inr (o, e) ↦ elim (Bool-cases (sub_u32 o.qty qty == 0)) [
    | inl done ↦
        rw (e, on_fill, done)
          (record {
            unique = erase-IsUnique order_id t.pending_orders a.unique;
            sums = λ s.
                unfold sub_u32 in
                ground
                  (arith, a.sums s, total-erase (working s) order_id t.pending_orders a.unique);
          })
    | inr more ↦
        let o' : PendingOrder = record o { qty = sub_u32 o.qty qty } in
        rw (e, on_fill, more)
          (record {
            unique = insert-IsUnique order_id o' t.pending_orders a.unique;
            sums = λ s.
                unfold sub_u32 in
                ground (arith, a.sums s, total-insert (working s) order_id o' t.pending_orders);
          })
  ]
]

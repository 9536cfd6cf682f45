-- ===== src/Risk/Clearing.antt =====
-- What `cancel_all_open_orders` and the shutdown of risk_manager.cpp leave behind when the exchange
-- accepts every cancellation.
use hftalgorithms.Base.{
  ℕ, ◌≡◌, refl, ◌∙◌, Bool, true, false, none, List, [], ◌∷◌, map, arith, inr, ◌==◌, ◌||◌,
  if◌then◌else◌, ◌⊎◌,
}
use hftalgorithms.Base.Double.{Double}
use hftalgorithms.Base.Dict.{Dict, lookup, lookup-erase, total}
use hftalgorithms.Trackers.Exposure.Accounting.{outstanding}
use hftalgorithms.Risk.Types.{RiskManager, IOrderSender}
use hftalgorithms.Risk.Entry.{
  delete_order, cancel, cancel_all_open_orders, check_and_shutdown_if_needed, open_order_ids,
  is_breached,
}
use hftalgorithms.Risk.Stable.{cancel_all-Stable}
use hftalgorithms.Risk.Shutdown.{cancel_all-is_shutdown}
use hftalgorithms.Risk.Books.{IsBooked, IsBooked-Stable}

-- The exchange accepts every cancellation.
abbrev pub AcceptsDeletes : {S : Type 0} → IOrderSender S → Type 0
AcceptsDeletes {S} s = (id : ℕ) (x : S) → (s.delete_order id x).0 ≡ true

contains_id : ℕ → List ℕ → Bool
contains_id j [] = false
contains_id j (i ∷ ids) = i == j || contains_id j ids

empty_of_lookup : {V : Type 0} (m : Dict V) → ((j : ℕ) → lookup j m ≡ none) → m ≡ []
unfolding lookup
empty_of_lookup [] h = refl
empty_of_lookup ((k, v) ∷ m) h = ground (arith, h k)

lookup-keys :
    {V : Type 0} (j : ℕ) (m : Dict V)
    → (contains_id j (map (λ e. e.0) m) ≡ true) ⊎ (lookup j m ≡ none)
unfolding contains_id lookup
lookup-keys j [] = inr refl
lookup-keys j ((k, v) ∷ m) = ground (arith, lookup-keys j m)

module _ {D S : Type 0} ⦃s : IOrderSender S⦄ (accepts : AcceptsDeletes s) where
  lookup-delete :
      (id j : ℕ) (r : RiskManager D S)
      → lookup j (delete_order id r).1.open_orders
        ≡ (if id == j then none else lookup j r.open_orders)
  unfolding delete_order
  lookup-delete id j r = ground (arith, accepts id r.sender, lookup-erase id j r.open_orders)

  lookup-cancel :
      (j : ℕ) (ids : List ℕ) (r : RiskManager D S)
      → (contains_id j ids ≡ true) ⊎ (lookup j r.open_orders ≡ none)
      → lookup j (cancel ids r).open_orders ≡ none
  unfolding cancel contains_id
  lookup-cancel j [] r h = ground arith
  lookup-cancel j (id ∷ ids) r h =
      lookup-cancel j ids (delete_order id r).1 (ground (arith, lookup-delete id j r))

  cancel_all-empty : (r : RiskManager D S) → (cancel_all_open_orders r).open_orders ≡ []
  unfolding cancel_all_open_orders open_order_ids
  cancel_all-empty r = empty_of_lookup _ λ j. lookup-cancel j _ r (lookup-keys j r.open_orders)

  -- With right books, nothing is pending or outstanding once no order is open.
  nothing_outstanding :
      (r : RiskManager D S)
      → IsBooked r
      → r.open_orders ≡ []
      → (r.exposure_tracker.pending_orders ≡ [])
        × ((b : Bool) → outstanding b r.exposure_tracker ≡ 0)
  nothing_outstanding r b e =
      let none_pending : r.exposure_tracker.pending_orders ≡ [] =
        empty_of_lookup _ λ j. b.covered j (rw e (unfold lookup in refl)) in
      (none_pending, λ t. b.accounted.sums t ∙ rw none_pending (unfold total in refl))

  -- If the exchange accepts every cancellation, `cancel_all_open_orders` leaves no open order, and
  -- if the books were right also no pending order and no outstanding quantity on either side.
  pub cancel_all_clears :
      (r : RiskManager D S)
      → IsBooked r
      → let r' = cancel_all_open_orders r in
        (r'.open_orders ≡ [])
        × (r'.exposure_tracker.pending_orders ≡ [])
        × ((b : Bool) → outstanding b r'.exposure_tracker ≡ 0)
  cancel_all_clears r b =
      let r' = cancel_all_open_orders r in
      let empty = cancel_all-empty r in
      let rest = nothing_outstanding r' (cancel_all-Stable IsBooked IsBooked-Stable r b) empty in
      (empty, rest.0, rest.1)

module _ {D S : Type 0} ⦃d : Double D⦄ ⦃s : IOrderSender S⦄ (accepts : AcceptsDeletes s) where
  shutdown_taken :
      (r : RiskManager D S)
      → r.is_shutdown ≡ false
      → r.in_shutdown ≡ false
      → is_breached r ≡ true
      → check_and_shutdown_if_needed r
        ≡ record (cancel_all_open_orders (record r { is_shutdown = true; in_shutdown = true })) {
          in_shutdown = false;
        }
  unfolding check_and_shutdown_if_needed
  shutdown_taken r e f breach = simp (e, f, breach)

  -- When a manager with right books that runs finds the position or the profit and loss out of
  -- bounds, and the exchange accepts every cancellation, it is shut down afterwards, outside the
  -- cancelling loop, with no open or pending order and no outstanding quantity.
  pub shutdown_clears :
      (r : RiskManager D S)
      → IsBooked r
      → r.is_shutdown ≡ false
      → r.in_shutdown ≡ false
      → is_breached r ≡ true
      → let r' = check_and_shutdown_if_needed r in
        (r'.is_shutdown ≡ true)
        × (r'.in_shutdown ≡ false)
        × (r'.open_orders ≡ [])
        × (r'.exposure_tracker.pending_orders ≡ [])
        × ((b : Bool) → outstanding b r'.exposure_tracker ≡ 0)
  shutdown_clears r b e f breach =
      let shut : RiskManager D S = record r { is_shutdown = true; in_shutdown = true } in
      let cleared = cancel_all_clears accepts shut (IsBooked-Stable.on_flags true true r b) in
      let latched = cancel_all-is_shutdown shut in
      rw (shutdown_taken r e f breach) (latched, refl, cleared.0, cleared.1, cleared.2)

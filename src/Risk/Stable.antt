-- ===== src/Risk/Stable.antt =====
-- Properties of the manager's state that survive a cancellation survive `delete_order`,
-- `cancel_all_open_orders` and `check_and_shutdown_if_needed` of risk_manager.cpp.
use hftalgorithms.Base.{
  ℕ, ◌≡◌, Bool, true, false, List, [], ◌∷◌, ◌||◌, if_keeps, Bool-cases, Option-cases, inl, inr,
  some,
}
use hftalgorithms.Base.Double.{Double}
use hftalgorithms.Base.Int.{ℤ}
use hftalgorithms.Base.Dict.{lookup}
use hftalgorithms.Messages.{Side}
use hftalgorithms.Risk.Types.{RiskManager, IOrderSender, OpenOrderInfo, is_ok}
use hftalgorithms.Risk.Checks.{check_new_order, check_modify_order, check_rate_limits}
use hftalgorithms.Risk.Entry.{
  forget, delete_order, cancel, cancel_all_open_orders, check_and_shutdown_if_needed, is_breached,
  open_order_ids, refresh_rate_window, counted, register, unregister, send_new_order,
  submit_new_order, modify_order, submit_modify, on_fill, book_fill,
}

module _ {D S : Type 0} where
  pub record Stable (P : RiskManager D S → Type 0) : Type 0 where
    pub on_sender : (sender : S) (r : RiskManager D S) → P r → P (record r { sender = sender })
    pub on_forget : (id : ℕ) (r : RiskManager D S) → P r → P (forget id r)
    pub on_flags :
        (shut busy : Bool) (r : RiskManager D S)
        → P r
        → P (record r { is_shutdown = shut; in_shutdown = busy })

module _ {D S : Type 0} ⦃s : IOrderSender S⦄ (P : RiskManager D S → Type 0) (st : Stable P) where
  pub delete_order-Stable : (id : ℕ) (r : RiskManager D S) → P r → P (delete_order id r).1
  unfolding delete_order
  delete_order-Stable id r p =
      let (answer, sender) = s.delete_order id r.sender in
      let sent = st.on_sender sender r p in if_keeps P answer (st.on_forget id _ sent) sent

  pub cancel-Stable : (ids : List ℕ) (r : RiskManager D S) → P r → P (cancel ids r)
  unfolding cancel
  cancel-Stable [] r p = p
  cancel-Stable (id ∷ ids) r p = cancel-Stable ids _ (delete_order-Stable id r p)

  pub cancel_all-Stable : (r : RiskManager D S) → P r → P (cancel_all_open_orders r)
  unfolding cancel_all_open_orders
  cancel_all-Stable r p = cancel-Stable (open_order_ids r) r p

module _ {D S : Type 0} ⦃d : Double D⦄ ⦃s : IOrderSender S⦄ (P : RiskManager D S → Type 0)
    (st : Stable P) where
  pub check_and_shutdown-Stable : (r : RiskManager D S) → P r → P (check_and_shutdown_if_needed r)
  unfolding check_and_shutdown_if_needed cancel_all_open_orders
  check_and_shutdown-Stable r p =
      let shut : RiskManager D S = record r { is_shutdown = true; in_shutdown = true } in
      let cancelled = cancel-Stable P st (open_order_ids shut) shut (st.on_flags true true r p) in
      if_keeps P (r.is_shutdown || r.in_shutdown) p (
        if_keeps P (is_breached r)
          (st.on_flags (cancel (open_order_ids shut) shut).is_shutdown false _ cancelled) p)

  -- The rule for `send_new_order`: what a refreshed window keeps, and what an order that has passed
  -- all checks keeps, whether the sender accepts it or not.
  pub send_new_order-Stable :
      (now id symbol : ℕ) (side : Side) (qty : ℕ) (price : ℤ) (r : RiskManager D S)
      → P (refresh_rate_window now r)
      → (let r' = refresh_rate_window now r in
          is_ok (check_new_order id side qty price r') ≡ true
          → is_ok (check_rate_limits r') ≡ true
          → (sender : S)
          → P (counted sender r')
            × P (
                register id
                  (record { symbol = symbol; side = side; qty = qty; price = price })
                  (counted sender r')))
      → P (send_new_order now id symbol side qty price r).1
  unfolding send_new_order submit_new_order
  send_new_order-Stable now id symbol side qty price r refreshed sent =
      let r' = refresh_rate_window now r in
      let (answer, sender) = s.send_new_order id symbol side qty price r'.sender in
      elim (Bool-cases (is_ok (check_new_order id side qty price r'))) [
        | inr e ↦ rw e refreshed
        | inl e ↦ elim (Bool-cases (is_ok (check_rate_limits r'))) [
          | inr f ↦ rw (e, f) refreshed
          | inl f ↦
              rw (e, f)
                (check_and_shutdown-Stable _
                  (if_keeps P answer (sent e f sender).1 (sent e f sender).0))
        ]
      ]

  -- The rule for `modify_order`.
  pub modify_order-Stable :
      (now id : ℕ) (side : Side) (qty : ℕ) (price : ℤ) (r : RiskManager D S)
      → P (refresh_rate_window now r)
      → (let r' = refresh_rate_window now r in
          is_ok (check_modify_order id side qty price r') ≡ true
          → is_ok (check_rate_limits r') ≡ true
          → (old : OpenOrderInfo) → lookup id r'.open_orders ≡ some old
          → (sender : S)
          → P (counted sender r')
            × P (
                register id
                  (record old { side = side; qty = qty; price = price })
                  (unregister id (counted sender r'))))
      → P (modify_order now id side qty price r).1
  unfolding modify_order submit_modify
  modify_order-Stable now id side qty price r refreshed sent =
      let r' = refresh_rate_window now r in
      elim (Bool-cases (is_ok (check_modify_order id side qty price r'))) [
        | inr e ↦ rw e refreshed
        | inl e ↦ elim (Bool-cases (is_ok (check_rate_limits r'))) [
          | inr f ↦ rw (e, f) refreshed
          | inl f ↦ elim (Option-cases (lookup id r'.open_orders)) [
            | inl g ↦ rw (e, f, g) refreshed
            | inr (old, g) ↦
                let (answer, sender) = s.modify_order id side qty price r'.sender in
                rw (e, f, g)
                  (check_and_shutdown-Stable _
                    (if_keeps P answer (sent e f old g sender).1 (sent e f old g sender).0))
          ]
        ]
      ]

  -- The rule for `on_fill`.
  pub on_fill-Stable :
      (id qty : ℕ) (price : ℤ) (closed : Bool) (r : RiskManager D S)
      → P r
      → ((o : OpenOrderInfo)
          → lookup id r.open_orders ≡ some o
          → P (book_fill id o.side qty price closed r))
      → P (on_fill id qty price closed r)
  unfolding on_fill
  on_fill-Stable id qty price closed r p filled = elim (Option-cases (lookup id r.open_orders)) [
    | inl e ↦ rw (e, on_fill) p
    | inr (o, e) ↦ rw (e, on_fill) (check_and_shutdown-Stable _ (filled o e))
  ]

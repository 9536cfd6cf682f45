-- ===== src/Risk/Shutdown.antt =====
-- The shutdown of risk_manager.cpp: it is final, it stops all orders, and it clears the books when
-- the exchange accepts the cancellations.
use hftalgorithms.Base.{
  ℕ, ◌≡◌, refl, ap, ◌∙◌, sym, subst, Bool, true, false, List, [], ◌∷◌, ◌++◌, arith, some,
  Option-cases, Bool-cases, inl, inr, ◌==◌, if◌then◌else◌,
}
use mathlib.Core.Option.{none-ne-some}
use hftalgorithms.Base.Dict.{lookup, erase, lookup-erase}
use hftalgorithms.Base.Int.{ℤ}
use hftalgorithms.Base.Double.{Double}
use hftalgorithms.Messages.{Side}
use hftalgorithms.Risk.Types.{RiskManager, IOrderSender, OpenOrderInfo}
use hftalgorithms.Risk.Checks.{check_new_order, check_modify_order}
use hftalgorithms.Risk.Entry.{
  refresh_rate_window, on_seq_num_update, delete_order, cancel, cancel_all_open_orders,
  check_and_shutdown_if_needed, send_new_order, modify_order, on_fill, on_reject, on_close,
  update_mark_price, open_order_ids, forget,
}
use hftalgorithms.Risk.Events.{
  Call, sends, modifies, deletes, cancels_all, fills, rejects, closes, marks, observes, step, run,
}

-- The sender after deletions of some orders, one behind the other, with whatever answers.
abbrev pub deletions : {S : Type 0} ⦃s : IOrderSender S⦄ → List ℕ → S → S
deletions [] x = x
deletions ⦃s = s⦄ (id ∷ ids) x = deletions ids (s.delete_order id x).1

deletions-append :
    {S : Type 0} ⦃s : IOrderSender S⦄ (xs ys : List ℕ) (x : S)
    → deletions (xs ++ ys) x ≡ deletions ys (deletions xs x)
deletions-append [] ys x = refl
deletions-append ⦃s = s⦄ (id ∷ xs) ys x = deletions-append xs ys (s.delete_order id x).1

module _ {D S : Type 0} ⦃s : IOrderSender S⦄ where
  delete-is_shutdown :
      (id : ℕ) (r : RiskManager D S) → (delete_order id r).1.is_shutdown ≡ r.is_shutdown
  unfolding delete_order
  delete-is_shutdown id r = ground arith

  cancel-is_shutdown :
      (ids : List ℕ) (r : RiskManager D S) → (cancel ids r).is_shutdown ≡ r.is_shutdown
  unfolding cancel
  cancel-is_shutdown [] r = refl
  cancel-is_shutdown (id ∷ ids) r =
      cancel-is_shutdown ids (delete_order id r).1 ∙ delete-is_shutdown id r

  pub cancel_all-is_shutdown :
      (r : RiskManager D S) → (cancel_all_open_orders r).is_shutdown ≡ r.is_shutdown
  unfolding cancel_all_open_orders
  cancel_all-is_shutdown r = cancel-is_shutdown (open_order_ids r) r

module _ {D S : Type 0} ⦃d : Double D⦄ ⦃s : IOrderSender S⦄ where
  refresh-is_shutdown :
      (now : ℕ) (r : RiskManager D S) → (refresh_rate_window now r).is_shutdown ≡ r.is_shutdown
  unfolding refresh_rate_window
  refresh-is_shutdown now r = ground arith

  send-blocked :
      (now id symbol : ℕ) (side : Side) (qty : ℕ) (price : ℤ) (r : RiskManager D S)
      → r.is_shutdown ≡ true
      → send_new_order now id symbol side qty price r ≡ (false, refresh_rate_window now r)
  unfolding send_new_order check_new_order
  send-blocked now id symbol side qty price r e = rw (refresh-is_shutdown now r, e)

  modify-blocked :
      (now id : ℕ) (side : Side) (qty : ℕ) (price : ℤ) (r : RiskManager D S)
      → r.is_shutdown ≡ true
      → modify_order now id side qty price r ≡ (false, refresh_rate_window now r)
  unfolding modify_order check_modify_order
  modify-blocked now id side qty price r e = rw (refresh-is_shutdown now r, e)

  -- What a shut down manager may have become: still shut down, with a sender that has only been asked
  -- to delete orders, and with no open order that it did not have.
  pub record WindsDown (r r' : RiskManager D S) : Type 0 where
    pub stopped : r'.is_shutdown ≡ true
    pub ids : List ℕ
    pub deleted : r'.sender ≡ deletions ids r.sender
    pub kept :
        (id : ℕ) (o : OpenOrderInfo)
        → lookup id r'.open_orders ≡ some o
        → lookup id r.open_orders ≡ some o

  unchanged-WindsDown :
      (r r' : RiskManager D S)
      → r'.is_shutdown ≡ true
      → r'.sender ≡ r.sender
      → r'.open_orders ≡ r.open_orders
      → WindsDown r r'
  unchanged-WindsDown r r' e same opens = record {
    stopped = e;
    ids = [];
    deleted = same;
    kept = λ id o f. ap (lookup id) (sym opens) ∙ f;
  }

  >>-WindsDown : (a b c : RiskManager D S) → WindsDown a b → WindsDown b c → WindsDown a c
  >>-WindsDown a b c x y = record {
    stopped = y.stopped;
    ids = x.ids ++ y.ids;
    deleted =
        y.deleted ∙ ap (deletions y.ids) x.deleted ∙ sym (deletions-append x.ids y.ids a.sender);
    kept = λ id o e. x.kept id o (y.kept id o e);
  }

  erased_kept :
      (id j : ℕ) (o : OpenOrderInfo) (r : RiskManager D S)
      → lookup j (erase id r.open_orders) ≡ some o
      → lookup j r.open_orders ≡ some o
  erased_kept id j o r e = elim (Bool-cases (id == j)) [
    | inl same ↦ absurd (none-ne-some o (sym (lookup-erase id j r.open_orders ∙ rw same refl) ∙ e))
    | inr other ↦ sym (lookup-erase id j r.open_orders ∙ rw other refl) ∙ e
  ]

  forget-WindsDown :
      (id : ℕ) (r : RiskManager D S) → r.is_shutdown ≡ true → WindsDown r (forget id r)
  forget-WindsDown id r e = record {
    stopped = e;
    ids = [];
    deleted = refl;
    kept = λ j o f. erased_kept id j o r f;
  }

  delete-WindsDown :
      (id : ℕ) (r : RiskManager D S) → r.is_shutdown ≡ true → WindsDown r (delete_order id r).1
  unfolding delete_order
  delete-WindsDown id r e =
      let (answer, sender) = s.delete_order id r.sender in
      let r' = record r { sender = sender } in
      let asked : WindsDown r r' = record {
        stopped = e;
        ids = id ∷ [];
        deleted = refl;
        kept = λ j o f. f;
      } in
      elim answer as (λ a. WindsDown r (if a then forget id r' else r')) [
        | true ↦ >>-WindsDown r r' (forget id r') asked (forget-WindsDown id r' e)
        | false ↦ asked
      ]

  cancel-WindsDown :
      (ids : List ℕ) (r : RiskManager D S) → r.is_shutdown ≡ true → WindsDown r (cancel ids r)
  unfolding cancel
  cancel-WindsDown [] r e = unchanged-WindsDown r r e refl refl
  cancel-WindsDown (id ∷ ids) r e =
      let first = delete-WindsDown id r e in
      >>-WindsDown r (delete_order id r).1 (cancel ids (delete_order id r).1) first
        (cancel-WindsDown ids (delete_order id r).1 first.stopped)

  refresh-WindsDown :
      (now : ℕ) (r : RiskManager D S)
      → r.is_shutdown ≡ true
      → WindsDown r (refresh_rate_window now r)
  unfolding refresh_rate_window
  refresh-WindsDown now r e =
      unchanged-WindsDown r (refresh_rate_window now r) (ground arith) (ground arith) (ground arith)

  fill-WindsDown :
      (id qty : ℕ) (price : ℤ) (closed : Bool) (r : RiskManager D S)
      → r.is_shutdown ≡ true
      → WindsDown r (on_fill id qty price closed r)
  unfolding on_fill check_and_shutdown_if_needed
  fill-WindsDown id qty price closed r e = elim (Option-cases (lookup id r.open_orders)) [
    | inl absent ↦ rw (on_fill, absent) (unchanged-WindsDown r r e refl refl)
    | inr (o, found) ↦
        rw (on_fill, found, check_and_shutdown_if_needed, e)
          (record {
            stopped = refl;
            ids = [];
            deleted = refl;
            kept =
                elim closed
                  as (λ b.
                    (j : ℕ) (q : OpenOrderInfo)
                    → lookup j (if b then erase id r.open_orders else r.open_orders) ≡ some q
                    → lookup j r.open_orders ≡ some q) [
                      | true ↦ λ j q f. erased_kept id j q r f
                      | false ↦ λ j q f. f
                    ];
          })
  ]

  step-WindsDown : (c : Call) (r : RiskManager D S) → r.is_shutdown ≡ true → WindsDown r (step c r)
  unfolding step
  step-WindsDown (sends now id symbol side qty price) r e =
      subst (λ p. WindsDown r p.1) (sym (send-blocked now id symbol side qty price r e))
        (refresh-WindsDown now r e)
  step-WindsDown (modifies now id side qty price) r e =
      subst (λ p. WindsDown r p.1) (sym (modify-blocked now id side qty price r e))
        (refresh-WindsDown now r e)
  step-WindsDown (deletes id) r e = delete-WindsDown id r e
  step-WindsDown cancels_all r e =
      unfold cancel_all_open_orders in cancel-WindsDown (open_order_ids r) r e
  step-WindsDown (fills id qty price closed) r e = fill-WindsDown id qty price closed r e
  step-WindsDown (rejects id) r e = unfold on_reject in forget-WindsDown id r e
  step-WindsDown (closes id) r e = unfold on_close in forget-WindsDown id r e
  step-WindsDown (marks price) r e = unfold update_mark_price in unchanged-WindsDown r _ e refl refl
  step-WindsDown (observes seq_num) r e =
      unfold on_seq_num_update in
      unchanged-WindsDown r _ (ground arith) (ground arith) (ground arith)

  run-WindsDown :
      (cs : List Call) (r : RiskManager D S) → r.is_shutdown ≡ true → WindsDown r (run cs r)
  unfolding run
  run-WindsDown [] r e = unchanged-WindsDown r r e refl refl
  run-WindsDown (c ∷ cs) r e =
      let first = step-WindsDown c r e in
      >>-WindsDown r (step c r) (run cs (step c r)) first
        (run-WindsDown cs (step c r) first.stopped)

  -- Whatever calls a manager that is shut down gets, and whatever the exchange answers, it stays shut
  -- down, asks its sender for nothing but deletions of orders, and has no open order that it did not
  -- have before, nor one with other terms; after them, a call to send or to modify an order still
  -- answers false.
  pub shutdown_is_final :
      (cs : List Call) (r : RiskManager D S)
      → r.is_shutdown ≡ true
      → WindsDown r (run cs r)
        × ((now id symbol : ℕ) (side : Side) (qty : ℕ) (price : ℤ)
            → (send_new_order now id symbol side qty price (run cs r)).0 ≡ false)
        × ((now id : ℕ) (side : Side) (qty : ℕ) (price : ℤ)
            → (modify_order now id side qty price (run cs r)).0 ≡ false)
  shutdown_is_final cs r e =
      let down = run-WindsDown cs r e in
      (
        down,
        λ now id symbol side qty price.
            ap (λ p. p.0) (send-blocked now id symbol side qty price (run cs r) down.stopped),
        λ now id side qty price.
            ap (λ p. p.0) (modify-blocked now id side qty price (run cs r) down.stopped),
      )

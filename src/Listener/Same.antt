-- ===== src/Listener/Same.antt =====
-- What a datagram of listener.cpp reads and changes.
use hftalgorithms.Base.{
  ℕ, zero, suc, ◌≡◌, refl, true, false, Option, none, some, List, [], ◌∷◌, Option-cases, inl, inr,
  ap, ◌∙◌, subst,
}
use hftalgorithms.Base.Dict.{lookup, insert, erase}
use hftalgorithms.Messages.{NewOrder}
use hftalgorithms.Symbols.{
  SymbolManager, on_new_order, on_delete_order, on_modify_order, on_trade, reset_book,
}
use hftalgorithms.Listener.{
  Message, new_order, delete_order, modify_order, trade, heartbeat, other_message, Item, info,
  order, other_item, Packet, market, snapshots, foreign, Listener, Status, running, stopped, fault,
  ◌>>=◌, handled, drop_symbol, dispatch_new_order, dispatch, begin_symbol, read_snapshot, process,
  dispatch_delete_order, dispatch_modify_order, dispatch_trade,
}

-- The manager and the map of the orders are the same.
pub record IsSame {D : Type 0} (k l : Listener D) : Type 0 where
  pub sm : k.sm ≡ l.sm
  pub orders : k.order_to_symbol ≡ l.order_to_symbol

abbrev pub AreSame : {D : Type 0} → Status D → Status D → Type 0
AreSame (running k) (running l) = IsSame k l
AreSame fault fault = Unit
AreSame _ _ = ⊥

-- A step from a listener has left its buffer and its phase, if it goes on.
abbrev pub KeepsBuffer : {D : Type 0} → Listener D → Status D → Type 0
KeepsBuffer k (running l) = (l.live_buffer ≡ k.live_buffer) × (l.caught_up ≡ k.caught_up)
KeepsBuffer k (stopped l) = Unit
KeepsBuffer k fault = Unit

module _ {D : Type 0} where
  pub >>=-AreSame :
      (s t : Status D) (f g : Listener D → Status D)
      → AreSame s t
      → ((k l : Listener D) → IsSame k l → AreSame (f k) (g l))
      → AreSame (s >>= f) (t >>= g)
  >>=-AreSame (running k) (running l) f g h step = step k l h
  >>=-AreSame (running k) (stopped l) f g h step = absurd h
  >>=-AreSame (running k) fault f g h step = absurd h
  >>=-AreSame (stopped k) t f g h step = absurd h
  >>=-AreSame fault (running l) f g h step = absurd h
  >>=-AreSame fault (stopped l) f g h step = absurd h
  >>=-AreSame fault fault f g h step = tt

  trans-KeepsBuffer :
      (k l : Listener D) (t : Status D)
      → (l.live_buffer ≡ k.live_buffer) × (l.caught_up ≡ k.caught_up)
      → KeepsBuffer l t
      → KeepsBuffer k t
  trans-KeepsBuffer k l (running m) h g = (g.0 ∙ h.0, g.1 ∙ h.1)
  trans-KeepsBuffer k l (stopped m) h g = tt
  trans-KeepsBuffer k l fault h g = tt

  pub >>=-KeepsBuffer :
      (k : Listener D) (s : Status D) (f : Listener D → Status D)
      → KeepsBuffer k s
      → ((l : Listener D) → KeepsBuffer l (f l))
      → KeepsBuffer k (s >>= f)
  >>=-KeepsBuffer k (running l) f h step = trans-KeepsBuffer k l (f l) h (step l)
  >>=-KeepsBuffer k (stopped l) f h step = tt
  >>=-KeepsBuffer k fault f h step = tt

  one-AreSame :
      (o : Option (SymbolManager D)) (k l : Listener D)
      → k.order_to_symbol ≡ l.order_to_symbol
      → AreSame (handled o k) (handled o l)
  one-AreSame none k l h = tt
  one-AreSame (some m) k l h = record { sm = refl; orders = h }

  handled-AreSame :
      (o p : Option (SymbolManager D)) (k l : Listener D)
      → o ≡ p
      → k.order_to_symbol ≡ l.order_to_symbol
      → AreSame (handled o k) (handled p l)
  handled-AreSame o p k l e h =
      subst (λ x. AreSame (handled o k) (handled x l)) e (one-AreSame o k l h)

  handled-KeepsBuffer :
      (o : Option (SymbolManager D)) (k l : Listener D)
      → l.live_buffer ≡ k.live_buffer
      → l.caught_up ≡ k.caught_up
      → KeepsBuffer k (handled o l)
  handled-KeepsBuffer none k l h g = tt
  handled-KeepsBuffer (some m) k l h g = (h, g)

  add-AreSame :
      (msg : NewOrder) (k l : Listener D)
      → IsSame k l
      → AreSame (dispatch_new_order msg k) (dispatch_new_order msg l)
  unfolding dispatch_new_order
  add-AreSame msg k l s =
      handled-AreSame (on_new_order msg.symbol msg k.sm) (on_new_order msg.symbol msg l.sm) _ _
        (ap (on_new_order msg.symbol msg) s.sm) (ap (insert msg.order_id msg.symbol) s.orders)

  pub dispatch-AreSame :
      (msg : Message) (k l : Listener D) → IsSame k l → AreSame (dispatch msg k) (dispatch msg l)
  unfolding dispatch dispatch_delete_order dispatch_modify_order dispatch_trade
  dispatch-AreSame (new_order msg) k l s = add-AreSame msg k l s
  dispatch-AreSame (delete_order msg) k l s =
      elim (Option-cases (lookup msg.order_id l.order_to_symbol)) [
        | inl e ↦ rw (ap (lookup msg.order_id) s.orders ∙ e, e, dispatch, dispatch_delete_order) s
        | inr (symbol, e) ↦
            rw (ap (lookup msg.order_id) s.orders ∙ e, e, dispatch, dispatch_delete_order)
              (handled-AreSame (on_delete_order symbol msg k.sm) (on_delete_order symbol msg l.sm) _
                _ (ap (on_delete_order symbol msg) s.sm) (ap (erase msg.order_id) s.orders))
      ]
  dispatch-AreSame (modify_order msg) k l s =
      elim (Option-cases (lookup msg.order_id l.order_to_symbol)) [
        | inl e ↦ rw (ap (lookup msg.order_id) s.orders ∙ e, e, dispatch, dispatch_modify_order) s
        | inr (symbol, e) ↦
            rw (ap (lookup msg.order_id) s.orders ∙ e, e, dispatch, dispatch_modify_order)
              (handled-AreSame (on_modify_order symbol msg k.sm) (on_modify_order symbol msg l.sm) k
                l (ap (on_modify_order symbol msg) s.sm) s.orders)
      ]
  dispatch-AreSame (trade msg) k l s = elim (Option-cases (lookup msg.order_id l.order_to_symbol)) [
    | inl e ↦ rw (ap (lookup msg.order_id) s.orders ∙ e, e, dispatch, dispatch_trade) s
    | inr (symbol, e) ↦
        rw (ap (lookup msg.order_id) s.orders ∙ e, e, dispatch, dispatch_trade)
          (handled-AreSame (on_trade symbol msg k.sm) (on_trade symbol msg l.sm) k l
            (ap (on_trade symbol msg) s.sm) s.orders)
  ]
  dispatch-AreSame heartbeat k l s = s
  dispatch-AreSame other_message k l s = s

  begin-AreSame :
      (symbol : ℕ) (k l : Listener D)
      → IsSame k l
      → AreSame (begin_symbol symbol k) (begin_symbol symbol l)
  unfolding begin_symbol
  begin-AreSame symbol k l s =
      handled-AreSame (reset_book symbol k.sm) (reset_book symbol l.sm) _ _
        (ap (reset_book symbol) s.sm) (ap (drop_symbol symbol) s.orders)

  read-AreSame :
      (items : List Item) (left : ℕ) (k l : Listener D)
      → IsSame k l
      → AreSame (read_snapshot items left k) (read_snapshot items left l)
  unfolding read_snapshot
  read-AreSame [] left k l s = s
  read-AreSame (info i ∷ rest) left k l s =
      >>=-AreSame (begin_symbol i.symbol k) (begin_symbol i.symbol l) _ _
        (begin-AreSame i.symbol k l s) (read-AreSame rest _)
  read-AreSame (order fits msg ∷ rest) zero k l s = s
  read-AreSame (order true msg ∷ rest) (suc left) k l s =
      >>=-AreSame (dispatch_new_order msg k) (dispatch_new_order msg l) _ _ (add-AreSame msg k l s)
        (read-AreSame rest left)
  read-AreSame (order false msg ∷ rest) (suc left) k l s = s
  read-AreSame (other_item ∷ rest) left k l s = s

  pub process-AreSame :
      (packet : Packet) (k l : Listener D)
      → IsSame k l
      → AreSame (process packet k) (process packet l)
  unfolding process
  process-AreSame (snapshots items) k l s = read-AreSame items 0 k l s
  process-AreSame foreign k l s = s
  process-AreSame (market msg) k l s =
      >>=-AreSame (dispatch msg k) (dispatch msg l) _ _ (dispatch-AreSame msg k l s)
        (λ k' l' s'. record { sm = s'.sm; orders = s'.orders })

  add-KeepsBuffer : (msg : NewOrder) (l : Listener D) → KeepsBuffer l (dispatch_new_order msg l)
  unfolding dispatch_new_order
  add-KeepsBuffer msg l = handled-KeepsBuffer (on_new_order msg.symbol msg l.sm) l _ refl refl

  dispatch-KeepsBuffer : (msg : Message) (l : Listener D) → KeepsBuffer l (dispatch msg l)
  unfolding dispatch dispatch_delete_order dispatch_modify_order dispatch_trade
  dispatch-KeepsBuffer (new_order msg) l = add-KeepsBuffer msg l
  dispatch-KeepsBuffer (delete_order msg) l =
      elim (Option-cases (lookup msg.order_id l.order_to_symbol)) [
        | inl e ↦ rw (e, dispatch, dispatch_delete_order) (refl, refl)
        | inr (symbol, e) ↦
            rw (e, dispatch, dispatch_delete_order)
              (handled-KeepsBuffer (on_delete_order symbol msg l.sm) l _ refl refl)
      ]
  dispatch-KeepsBuffer (modify_order msg) l =
      elim (Option-cases (lookup msg.order_id l.order_to_symbol)) [
        | inl e ↦ rw (e, dispatch, dispatch_modify_order) (refl, refl)
        | inr (symbol, e) ↦
            rw (e, dispatch, dispatch_modify_order)
              (handled-KeepsBuffer (on_modify_order symbol msg l.sm) l l refl refl)
      ]
  dispatch-KeepsBuffer (trade msg) l = elim (Option-cases (lookup msg.order_id l.order_to_symbol)) [
    | inl e ↦ rw (e, dispatch, dispatch_trade) (refl, refl)
    | inr (symbol, e) ↦
        rw (e, dispatch, dispatch_trade)
          (handled-KeepsBuffer (on_trade symbol msg l.sm) l l refl refl)
  ]
  dispatch-KeepsBuffer heartbeat l = (refl, refl)
  dispatch-KeepsBuffer other_message l = (refl, refl)

  read-KeepsBuffer :
      (items : List Item) (left : ℕ) (l : Listener D) → KeepsBuffer l (read_snapshot items left l)
  unfolding read_snapshot begin_symbol
  read-KeepsBuffer [] left l = (refl, refl)
  read-KeepsBuffer (info i ∷ rest) left l =
      >>=-KeepsBuffer l (begin_symbol i.symbol l) _
        (handled-KeepsBuffer (reset_book i.symbol l.sm) l _ refl refl) (read-KeepsBuffer rest _)
  read-KeepsBuffer (order fits msg ∷ rest) zero l = (refl, refl)
  read-KeepsBuffer (order true msg ∷ rest) (suc left) l =
      >>=-KeepsBuffer l (dispatch_new_order msg l) _ (add-KeepsBuffer msg l)
        (read-KeepsBuffer rest left)
  read-KeepsBuffer (order false msg ∷ rest) (suc left) l = (refl, refl)
  read-KeepsBuffer (other_item ∷ rest) left l = (refl, refl)

  pub process-KeepsBuffer : (packet : Packet) (l : Listener D) → KeepsBuffer l (process packet l)
  unfolding process
  process-KeepsBuffer (snapshots items) l = read-KeepsBuffer items 0 l
  process-KeepsBuffer foreign l = (refl, refl)
  process-KeepsBuffer (market msg) l =
      >>=-KeepsBuffer l (dispatch msg l) _ (dispatch-KeepsBuffer msg l) (λ k. (refl, refl))

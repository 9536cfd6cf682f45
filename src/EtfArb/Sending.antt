-- ===== src/EtfArb/Sending.antt =====
-- The rules of `Numbers` for the operations of etf_arb.cpp that send.
use hftalgorithms.Base.{ℕ, ◌+◌, ◌≡◌, refl, sym, subst, List, [], ◌∷◌, Option-cases, inl, inr}
use hftalgorithms.Base.Int.{ℤ}
use hftalgorithms.Base.Double.{Double}
use hftalgorithms.Base.Dict.{lookup, insert}
use hftalgorithms.Messages.{Side}
use hftalgorithms.OrderEntry.{
  OeClient, send_new_order, send_new_order_no_wait, wait_for_response, wait_for_fill,
  cancel_all_live_orders,
}
use hftalgorithms.OrderEntry.Protocol.{FillEvent, Callback, on_fill, on_reject, on_close}
use hftalgorithms.OrderEntry.Cancelling.{cancel_all-sent, await_response-IsQuiet}
use hftalgorithms.OrderEntry.Wire.Orderly.{await_fill-IsQuiet}
use hftalgorithms.EtfArb.{
  Bot, pure, next_id, fill_arb, fill_mm, route_fill, route, route_all, entering, place,
  place_no_wait,
}
use hftalgorithms.EtfArb.Numbers.{
  AreGrowing, EndsGrowing, KeepsIds, append-AreGrowing, deletes-AreGrowing, sends_next, ends_on,
  >>-KeepsIds, if-KeepsIds, pure-KeepsIds, changing-KeepsIds, sets-KeepsIds,
}

module _ {D : Type 0} ⦃d : Double D⦄ where
  fill_arb-KeepsIds : (f : FillEvent) (t : ℕ × Side) → KeepsIds {D = D} (fill_arb f t)
  unfolding fill_arb
  fill_arb-KeepsIds f (id, side) =
      >>-KeepsIds (changing-KeepsIds _)
        (if-KeepsIds f.closed (sets-KeepsIds _ (λ b. (refl, refl))) (pure-KeepsIds tt))

  fill_mm-KeepsIds : (f : FillEvent) (t : ℕ × Side) → KeepsIds {D = D} (fill_mm f t)
  unfolding fill_mm
  fill_mm-KeepsIds f (id, side) =
      >>-KeepsIds (changing-KeepsIds _)
        (if-KeepsIds f.closed (sets-KeepsIds _ (λ b. (refl, refl))) (pure-KeepsIds tt))

  route_fill-KeepsIds : (f : FillEvent) → KeepsIds {D = D} (route_fill f)
  unfolding route_fill
  route_fill-KeepsIds f = record {
    ends = λ lo b s. elim (Option-cases (lookup f.order_id b.order_map)) [
      | inr (t, e) ↦ rw (e, route_fill) ((fill_arb-KeepsIds f t).ends lo b s)
      | inl e ↦ elim (Option-cases (lookup f.order_id b.mm_order_map)) [
        | inr (t, e') ↦ rw (e, e', route_fill) ((fill_mm-KeepsIds f t).ends lo b s)
        | inl e' ↦ rw (e, e', route_fill) s
      ]
    ];
  }

  route-KeepsIds : (c : Callback) → KeepsIds {D = D} (route c)
  unfolding route
  route-KeepsIds (on_fill f) = route_fill-KeepsIds f
  route-KeepsIds (on_reject oid) = pure-KeepsIds tt
  route-KeepsIds (on_close oid) = sets-KeepsIds _ (λ b. (refl, refl))

  route_all-KeepsIds : (cs : List Callback) → KeepsIds {D = D} (route_all cs)
  unfolding route_all
  route_all-KeepsIds [] = pure-KeepsIds tt
  route_all-KeepsIds (c ∷ cs) = >>-KeepsIds (route-KeepsIds c) (route_all-KeepsIds cs)

  -- A call of the client after which the ids still grow.
  entering_grows :
      {A : Type 0} (lo : ℕ) (f : OeClient → A × OeClient) (b : Bot D)
      → AreGrowing lo (f (record b.oe { calls = [] })).1.sent b.next_order_id
      → EndsGrowing lo (entering f b)
  unfolding entering
  entering_grows lo f b h =
      let r = f (record b.oe { calls = [] }) in
      (>>-KeepsIds (route_all-KeepsIds r.1.calls) (pure-KeepsIds r.0)).ends lo
        (record b { oe = r.1 }) h

  pub entering-KeepsIds :
      {A : Type 0} (f : OeClient → A × OeClient)
      → ((c : OeClient) → (f c).1.sent ≡ c.sent)
      → KeepsIds {D = D} (entering f)
  entering-KeepsIds f h = record {
    ends = λ lo b s.
        entering_grows lo f b
          (subst (λ rs. AreGrowing lo rs b.next_order_id) (sym (h (record b.oe { calls = [] }))) s);
  }

  pub waiting-KeepsIds : (oid : ℕ) → KeepsIds {D = D} (entering (wait_for_response oid))
  unfolding wait_for_response
  waiting-KeepsIds oid =
      entering-KeepsIds (wait_for_response oid) (λ c. (await_response-IsQuiet oid c.inbox c).sent)

  pub fill_waiting-KeepsIds : (now oid : ℕ) → KeepsIds {D = D} (entering (wait_for_fill now oid))
  unfolding wait_for_fill
  fill_waiting-KeepsIds now oid =
      entering-KeepsIds (wait_for_fill now oid)
        (λ c. (await_fill-IsQuiet oid (now + 5000) c.inbox c).sent)

  pub cancelling-KeepsIds : KeepsIds {D = D} (entering λ c. (tt, cancel_all_live_orders c))
  cancelling-KeepsIds = record {
    ends = λ lo b s.
        let c : OeClient = record b.oe { calls = [] } in
        entering_grows lo (λ x. (tt, cancel_all_live_orders x)) b
          (subst (λ rs. AreGrowing lo rs b.next_order_id) (sym (cancel_all-sent c))
            (append-AreGrowing lo b.next_order_id b.next_order_id c.sent _ s (
              deletes-AreGrowing c.session_id c.client_id c.seq_num b.next_order_id
                c.live_orders)));
  }

  pub place_no_wait-KeepsIds :
      (id : ℕ) (side : Side) (qty : ℕ) (price : ℤ)
      → KeepsIds {D = D} (place_no_wait id side qty price)
  unfolding place_no_wait next_id
  place_no_wait-KeepsIds id side qty price = record {
    ends = λ lo b s.
        let b' : Bot D = record b {
          next_order_id = b.next_order_id + 1;
          order_map = insert b.next_order_id (id, side) b.order_map;
        } in
        ends_on lo
          (entering (λ c. (tt, send_new_order_no_wait b.next_order_id id side qty price c)) b')
          (λ _. pure b.next_order_id)
          (entering_grows lo _ b'
            (sends_next lo b.next_order_id id side qty price (record b.oe { calls = [] }) s))
          (λ _. pure-KeepsIds b.next_order_id);
  }

  pub place-KeepsIds :
      (id : ℕ) (side : Side) (qty : ℕ) (price : ℤ) → KeepsIds {D = D} (place id side qty price)
  unfolding place next_id send_new_order wait_for_response
  place-KeepsIds id side qty price = record {
    ends = λ lo b s.
        let oid = b.next_order_id in
        let b' : Bot D = record b {
          next_order_id = oid + 1;
          order_map = insert oid (id, side) b.order_map;
        } in
        let c : OeClient =
          send_new_order_no_wait oid id side qty price (record b.oe { calls = [] }) in
        ends_on lo (entering (send_new_order oid id side qty price) b')
          (λ accepted. pure (oid, accepted))
          (entering_grows lo (send_new_order oid id side qty price) b' (
            subst (λ rs. AreGrowing lo rs (oid + 1))
              (sym (await_response-IsQuiet oid c.inbox c).sent)
              (sends_next lo oid id side qty price (record b.oe { calls = [] }) s)))
          (λ accepted. pure-KeepsIds (oid, accepted));
  }

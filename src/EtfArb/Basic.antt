-- ===== src/EtfArb/Basic.antt =====
-- The rules of `Safe` for the operations of etf_arb.cpp that the others share.
use hftalgorithms.Base.{
  ℕ, zero, suc, refl, true, false, List, [], ◌∷◌, map, All, Option-cases, inl, inr,
}
use hftalgorithms.Base.Int.{ℤ}
use hftalgorithms.Base.Double.{Double}
use hftalgorithms.Base.Dict.{lookup, insert, insert_keeps}
use hftalgorithms.Messages.{Side}
use hftalgorithms.OrderEntry.{OeClient}
use hftalgorithms.OrderEntry.Protocol.{FillEvent, Callback, on_fill, on_reject, on_close}
use hftalgorithms.Symbols.{
  SymbolManager, SymbolSlot, get_position, read_best_bid_price, read_best_ask_price, ids, cached,
}
use hftalgorithms.Symbols
use hftalgorithms.Symbols.Cache
use hftalgorithms.Symbols.Cache.{IsReady, IsListed, Succeeds, AreListed, run-IsReady, step-Succeeds}
use hftalgorithms.EtfArb.{
  World, sets, changing, fill_arb, fill_mm, route_fill, route, route_all, entering, position_of,
  place_no_wait, place, flatten, is_flat, now, pause, await_flat, event,
}
use hftalgorithms.EtfArb.Safe.{
  IsSafe, IsFair, erase-AreKnown, All-IsListed, >>=-IsSafe, >>-IsSafe, if-IsSafe, pure-IsSafe,
  changing-IsSafe, sets-IsSafe, position_of-IsSafe, next_id-IsSafe, safe_rules,
}

module _ {D : Type 0} ⦃d : Double D⦄ where
  pub booked-IsSafe :
      (id : ℕ) (side : Side) (qty : ℕ) (price : ℤ)
      → IsListed id
      → IsSafe (changing (Symbols.on_fill {D = D} id side qty price))
  booked-IsSafe id side qty price h =
      changing-IsSafe (Symbols.on_fill id side qty price)
        (λ m r. unfold Cache.step in step-Succeeds (Cache.fills id side qty price) m h r)

  fill_arb-IsSafe : (f : FillEvent) (t : ℕ × Side) → IsListed t.0 → IsSafe {D = D} (fill_arb f t)
  unfolding fill_arb
  fill_arb-IsSafe f (id, side) h = >>-IsSafe (booked-IsSafe id side f.qty f.price h) (
      if-IsSafe f.closed
        (sets-IsSafe _ (λ b s. record {
          ready = s.ready;
          arb_orders = erase-AreKnown f.order_id b.order_map s.arb_orders;
          mm_orders = s.mm_orders;
        }))
        (pure-IsSafe tt))

  fill_mm-IsSafe : (f : FillEvent) (t : ℕ × Side) → IsListed t.0 → IsSafe {D = D} (fill_mm f t)
  unfolding fill_mm
  fill_mm-IsSafe f (id, side) h = >>-IsSafe (booked-IsSafe id side f.qty f.price h) (
      if-IsSafe f.closed
        (sets-IsSafe _ (λ b s. record {
          ready = s.ready;
          arb_orders = s.arb_orders;
          mm_orders = erase-AreKnown f.order_id b.mm_order_map s.mm_orders;
        }))
        (pure-IsSafe tt))

  route_fill-IsSafe : (f : FillEvent) → IsSafe {D = D} (route_fill f)
  unfolding route_fill
  route_fill-IsSafe f = record {
    ends = λ b s. elim (Option-cases (lookup f.order_id b.order_map)) [
      | inr (t, e) ↦
          rw (e, route_fill) ((fill_arb-IsSafe f t (s.arb_orders f.order_id t e)).ends b s)
      | inl e ↦ elim (Option-cases (lookup f.order_id b.mm_order_map)) [
        | inr (t, e') ↦
            rw (e, e', route_fill) ((fill_mm-IsSafe f t (s.mm_orders f.order_id t e')).ends b s)
        | inl e' ↦ rw (e, e', route_fill) s
      ]
    ];
  }

  route-IsSafe : (c : Callback) → IsSafe {D = D} (route c)
  unfolding route
  route-IsSafe (on_fill f) = route_fill-IsSafe f
  route-IsSafe (on_reject oid) = pure-IsSafe tt
  route-IsSafe (on_close oid) = sets-IsSafe _ (λ b s. record {
    ready = s.ready;
    arb_orders = s.arb_orders;
    mm_orders = erase-AreKnown oid b.mm_order_map s.mm_orders;
  })

  route_all-IsSafe : (cs : List Callback) → IsSafe {D = D} (route_all cs)
  unfolding route_all
  route_all-IsSafe [] = pure-IsSafe tt
  route_all-IsSafe (c ∷ cs) = >>-IsSafe (route-IsSafe c) (route_all-IsSafe cs)

  pub entering-IsSafe : {A : Type 0} (f : OeClient → A × OeClient) → IsSafe {D = D} (entering f)
  unfolding entering
  entering-IsSafe f = search (safe_rules, route_all-IsSafe)

  pub position-IsSafe : (id : ℕ) → IsListed id → IsSafe {D = D} (position_of id)
  unfolding position_of
  position-IsSafe id h = position_of-IsSafe id h

  -- An order is recorded for its symbol.
  recorded-IsSafe :
      (oid id : ℕ) (side : Side)
      → IsListed id
      → IsSafe {D = D} (sets λ b. record b { order_map = insert oid (id, side) b.order_map })
  recorded-IsSafe oid id side h = sets-IsSafe _ (λ b s. record {
    ready = s.ready;
    arb_orders = insert_keeps (λ t. IsListed t.0) oid (id, side) b.order_map h s.arb_orders;
    mm_orders = s.mm_orders;
  })

  pub place_no_wait-IsSafe :
      (id : ℕ) (side : Side) (qty : ℕ) (price : ℤ)
      → IsListed id
      → IsSafe {D = D} (place_no_wait id side qty price)
  unfolding place_no_wait
  place_no_wait-IsSafe id side qty price h = >>=-IsSafe next_id-IsSafe (λ oid.
      >>-IsSafe (recorded-IsSafe oid id side h) (>>-IsSafe (entering-IsSafe _) (pure-IsSafe oid)))

  pub place-IsSafe :
      (id : ℕ) (side : Side) (qty : ℕ) (price : ℤ)
      → IsListed id
      → IsSafe {D = D} (place id side qty price)
  unfolding place
  place-IsSafe id side qty price h = >>=-IsSafe next_id-IsSafe (λ oid.
      >>-IsSafe (recorded-IsSafe oid id side h)
        (>>=-IsSafe (entering-IsSafe _) (λ accepted. pure-IsSafe (oid, accepted))))

  pub flatten-IsSafe : (id : ℕ) → IsListed id → IsSafe {D = D} (flatten id)
  unfolding flatten
  flatten-IsSafe id h = search (safe_rules, position-IsSafe, place-IsSafe) depth 12

  pub is_flat-IsSafe : (js : List ℕ) → All IsListed js → IsSafe {D = D} (is_flat js)
  unfolding is_flat
  is_flat-IsSafe [] h = pure-IsSafe true
  is_flat-IsSafe (id ∷ js) h =
      >>=-IsSafe (position-IsSafe id h.0)
        (λ position. if-IsSafe _ (is_flat-IsSafe js h.1) (pure-IsSafe false))

module _ {D : Type 0} ⦃d : Double D⦄ (w : World) (fair : IsFair w) where
  pub now-IsSafe : IsSafe {D = D} (now w)
  unfolding now
  now-IsSafe = record {
    ends = λ b s. record { ready = s.ready; arb_orders = s.arb_orders; mm_orders = s.mm_orders };
  }

  market_runs : (n : ℕ) → IsSafe (changing (Cache.run {D = D} (map event (w.market n))))
  market_runs n = changing-IsSafe _ (λ m r. run-IsReady (map event (w.market n)) m (fair n) r)

  pub pause-IsSafe : IsSafe {D = D} (pause w)
  unfolding pause
  pause-IsSafe = search (safe_rules, market_runs)

  pub await_flat-IsSafe : (fuel : ℕ) → IsSafe {D = D} (await_flat w fuel)
  unfolding await_flat
  await_flat-IsSafe zero = record { ends = λ b s. tt }
  await_flat-IsSafe (suc fuel) =
      >>=-IsSafe (is_flat-IsSafe ids (All-IsListed ids refl))
        (λ flat. if-IsSafe flat (pure-IsSafe tt) (>>-IsSafe pause-IsSafe (await_flat-IsSafe fuel)))

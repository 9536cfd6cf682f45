-- ===== src/Listener/Sound.antt =====
-- What holds of the listener of listener.cpp at every step, whatever datagrams come.
use hftalgorithms.Base.{
  ℕ, zero, suc, ◌+◌, true, false, Option, none, some, List, [], ◌∷◌, All, Option-cases, Bool-cases,
  inl, inr, arith, refl, length, length-append, ltb, not, ◌&&◌,
}
use hftalgorithms.Base.Dict.{lookup}
use hftalgorithms.Messages.{NewOrder}
use hftalgorithms.Symbols.{SymbolManager}
use hftalgorithms.Symbols.Cache.{IsReady, IsListed, Succeeds, step-Succeeds, step}
use hftalgorithms.Symbols.Cache
use hftalgorithms.Base.Double.{Double}
use hftalgorithms.Listener.{
  Message, new_order, delete_order, modify_order, trade, heartbeat, other_message, Item, info,
  order, other_item, Packet, market, snapshots, foreign, Source, Poll, failed, timed_out, ready,
  Listener, dispatch_new_order, dispatch, drain, begin_symbol, read_snapshot, process, receive,
  receive_all, count_silence, round, run, is_live, init, dispatch_delete_order,
  dispatch_modify_order, dispatch_trade,
}
use hftalgorithms.Listener.Listed.{
  NamesListed, IsListedItem, IsListedPacket, IsListedRead, IsListedPoll, IsSound, EndsSound,
  lookup-AreListed, insert-AreListed, erase-AreListed, drop-AreListed, kept-append, >>=-EndsSound,
  handled-EndsSound,
}

module _ {D : Type 0} ⦃d : Double D⦄ {m0 : SymbolManager D} where
  dispatch_new_order-EndsSound :
      (msg : NewOrder) (l : Listener D)
      → IsListed msg.symbol
      → IsSound m0 l
      → EndsSound m0 (dispatch_new_order msg l)
  unfolding dispatch_new_order step
  dispatch_new_order-EndsSound msg l h s =
      handled-EndsSound (Cache.adds msg.symbol msg) _ h (record {
        fed = s.fed;
        slots = s.slots;
        orders = insert-AreListed msg.order_id msg.symbol l.order_to_symbol h s.orders;
        kept = s.kept;
        bound = s.bound;
      })

  dispatch-EndsSound :
      (msg : Message) (l : Listener D)
      → NamesListed msg
      → IsSound m0 l
      → EndsSound m0 (dispatch msg l)
  unfolding dispatch dispatch_delete_order dispatch_modify_order dispatch_trade step
  dispatch-EndsSound (new_order msg) l h s = dispatch_new_order-EndsSound msg l h s
  dispatch-EndsSound (delete_order msg) l h s =
      elim (Option-cases (lookup msg.order_id l.order_to_symbol)) [
        | inl e ↦ rw (e, dispatch, dispatch_delete_order) s
        | inr (symbol, e) ↦
            rw (e, dispatch, dispatch_delete_order)
              (handled-EndsSound (Cache.deletes symbol msg) _
                (lookup-AreListed msg.order_id symbol l.order_to_symbol s.orders e)
                (record {
                  fed = s.fed;
                  slots = s.slots;
                  orders = erase-AreListed msg.order_id l.order_to_symbol s.orders;
                  kept = s.kept;
                  bound = s.bound;
                }))
      ]
  dispatch-EndsSound (modify_order msg) l h s =
      elim (Option-cases (lookup msg.order_id l.order_to_symbol)) [
        | inl e ↦ rw (e, dispatch, dispatch_modify_order) s
        | inr (symbol, e) ↦
            rw (e, dispatch, dispatch_modify_order)
              (handled-EndsSound (Cache.modifies symbol msg) l
                (lookup-AreListed msg.order_id symbol l.order_to_symbol s.orders e) s)
      ]
  dispatch-EndsSound (trade msg) l h s =
      elim (Option-cases (lookup msg.order_id l.order_to_symbol)) [
        | inl e ↦ rw (e, dispatch, dispatch_trade) s
        | inr (symbol, e) ↦
            rw (e, dispatch, dispatch_trade)
              (handled-EndsSound (Cache.trades symbol msg) l
                (lookup-AreListed msg.order_id symbol l.order_to_symbol s.orders e) s)
      ]
  dispatch-EndsSound heartbeat l h s = s
  dispatch-EndsSound other_message l h s = s

  drain-EndsSound :
      (rest : List Packet) (l : Listener D)
      → All IsListedPacket rest
      → IsSound m0 l
      → EndsSound m0 (drain rest l)
  unfolding drain
  drain-EndsSound [] l h s = record {
    fed = s.fed;
    slots = s.slots;
    orders = s.orders;
    kept = tt;
    bound = omega arith;
  }
  drain-EndsSound (market msg ∷ rest) l h s =
      >>=-EndsSound (dispatch msg l) (drain rest) (dispatch-EndsSound msg l h.0 s)
        (λ l' s'. drain-EndsSound rest l' h.1 s')
  drain-EndsSound (snapshots items ∷ rest) l h s = drain-EndsSound rest l h.1 s
  drain-EndsSound (foreign ∷ rest) l h s = drain-EndsSound rest l h.1 s

  pub begin_symbol-EndsSound :
      (symbol : ℕ) (l : Listener D)
      → IsListed symbol
      → IsSound m0 l
      → EndsSound m0 (begin_symbol symbol l)
  unfolding begin_symbol step
  begin_symbol-EndsSound symbol l h s = handled-EndsSound (Cache.resets symbol) _ h (record {
    fed = s.fed;
    slots = s.slots;
    orders = drop-AreListed symbol l.order_to_symbol s.orders;
    kept = s.kept;
    bound = s.bound;
  })

  read_snapshot-EndsSound :
      (items : List Item) (left : ℕ) (l : Listener D)
      → All IsListedItem items
      → IsSound m0 l
      → EndsSound m0 (read_snapshot items left l)
  unfolding read_snapshot
  read_snapshot-EndsSound [] left l h s = s
  read_snapshot-EndsSound (info i ∷ rest) left l h s =
      >>=-EndsSound (begin_symbol i.symbol l) _ (begin_symbol-EndsSound i.symbol l h.0 s)
        (λ l' s'. read_snapshot-EndsSound rest _ l' h.1 s')
  read_snapshot-EndsSound (order fits msg ∷ rest) zero l h s = s
  read_snapshot-EndsSound (order true msg ∷ rest) (suc left) l h s =
      >>=-EndsSound (dispatch_new_order msg l) _ (dispatch_new_order-EndsSound msg l h.0 s)
        (λ l' s'. read_snapshot-EndsSound rest left l' h.1 s')
  read_snapshot-EndsSound (order false msg ∷ rest) (suc left) l h s = s
  read_snapshot-EndsSound (other_item ∷ rest) left l h s = s

  process-EndsSound :
      (packet : Packet) (l : Listener D)
      → IsListedPacket packet
      → IsSound m0 l
      → EndsSound m0 (process packet l)
  unfolding process
  process-EndsSound (snapshots items) l h s = read_snapshot-EndsSound items 0 l h s
  process-EndsSound foreign l h s = s
  process-EndsSound (market msg) l h s =
      >>=-EndsSound (dispatch msg l) _ (dispatch-EndsSound msg l h s) (λ l' s'. record {
        fed = s'.fed;
        slots = s'.slots;
        orders = s'.orders;
        kept = s'.kept;
        bound = s'.bound;
      })

  receive-EndsSound :
      (from : Source) (packet : Packet) (l : Listener D)
      → IsListedPacket packet
      → IsSound m0 l
      → EndsSound m0 (receive from packet l)
  unfolding receive
  receive-EndsSound from packet l h s = elim (Bool-cases (not l.caught_up && is_live from)) [
    | inr direct ↦ rw (direct, receive) (process-EndsSound packet l h s)
    | inl keep ↦ elim (Bool-cases (ltb 100000 (length l.live_buffer))) [
      | inl full ↦ rw (keep, full, receive) s
      | inr room ↦
          rw (keep, room, receive)
            (record {
              fed = s.fed;
              slots = s.slots;
              orders = s.orders;
              kept = kept-append l.live_buffer packet s.kept h;
              bound = ground (arith, room, length-append l.live_buffer (packet ∷ []));
            })
    ]
  ]

  receive_all-EndsSound :
      (events : List (Source × Option Packet)) (l : Listener D)
      → All IsListedRead events
      → IsSound m0 l
      → EndsSound m0 (receive_all events l)
  unfolding receive_all
  receive_all-EndsSound [] l h s = s
  receive_all-EndsSound ((from, none) ∷ rest) l h s = receive_all-EndsSound rest l h.1 s
  receive_all-EndsSound ((from, some packet) ∷ rest) l h s =
      >>=-EndsSound (receive from packet l) _ (receive-EndsSound from packet l h.0 s)
        (λ l' s'. receive_all-EndsSound rest l' h.1 s')

  count_silence-EndsSound : (l : Listener D) → IsSound m0 l → EndsSound m0 (count_silence l)
  unfolding count_silence
  count_silence-EndsSound l s =
      let s' : IsSound m0 (record l { caught_up = true; no_replay_count = l.no_replay_count + 1 }) =
        record {
          fed = s.fed;
          slots = s.slots;
          orders = s.orders;
          kept = s.kept;
          bound = s.bound;
        } in
      elim (Bool-cases (ltb 100 (l.no_replay_count + 1))) [
        | inl over ↦ rw (over, count_silence) (drain-EndsSound l.live_buffer _ s.kept s')
        | inr early ↦
            rw (early, count_silence)
              (record {
                fed = s.fed;
                slots = s.slots;
                orders = s.orders;
                kept = s.kept;
                bound = s.bound;
              })
      ]

  round-EndsSound :
      (p : Poll) (l : Listener D) → IsListedPoll p → IsSound m0 l → EndsSound m0 (round p l)
  unfolding round
  round-EndsSound failed l h s = s
  round-EndsSound timed_out l h s = elim (Bool-cases (not l.caught_up && l.received_snapshot)) [
    | inl silent ↦ rw (silent, round) (count_silence-EndsSound l s)
    | inr other ↦ rw (other, round) s
  ]
  round-EndsSound (ready events) l h s = receive_all-EndsSound events l h s

  -- Whatever the sockets deliver, if it names only listed symbols, `run_listener` never uses an index
  -- without a slot; while it runs and where it returns, what it has done to the symbol manager is a
  -- sequence of market data calls for listed symbols, the caches of the books are right, every order
  -- that it knows is for a listed symbol, and it has kept at most 100001 live datagrams.
  pub run-EndsSound :
      (ps : List Poll) (l : Listener D)
      → All IsListedPoll ps
      → IsSound m0 l
      → EndsSound m0 (run ps l)
  unfolding run
  run-EndsSound [] l h s = s
  run-EndsSound (p ∷ ps) l h s =
      >>=-EndsSound (round p l) (run ps) (round-EndsSound p l h.0 s)
        (λ l' s'. run-EndsSound ps l' h.1 s')

  pub init-IsSound : IsReady m0 → IsSound m0 (init m0)
  unfolding Cache.run
  init-IsSound r = record {
    fed = ([], tt, refl);
    slots = r;
    orders = tt;
    kept = tt;
    bound = omega arith;
  }

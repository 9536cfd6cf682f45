-- ===== src/Symbols/Cache.antt =====
-- The top-of-book cache of symbol_manager.cpp against the book it is taken from.
use hftalgorithms.Base.{
  ℕ, ◌≡◌, refl, true, Option, none, some, List, [], ◌∷◌, arith, inl, inr, ◌==◌, Option-cases,
  Bool-cases, All, ◌≤◌, sym, ◌∙◌,
}
use mathlib.Core.Option.{none-ne-some}
use mathlib.Core.Bool.{true≢false}
use hftalgorithms.Base.Int.{ℤ, pos, i32_of}
use hftalgorithms.Base.Double.{Double}
use hftalgorithms.Base.Dict.{lookup, insert, contains, insert_keeps, lookup-insert}
use hftalgorithms.Messages.{Side, NewOrder, DeleteOrder, ModifyOrder, Trade}
use hftalgorithms.OrderBook.{
  get_best_bid_price, get_best_bid_qty, get_best_ask_price, get_best_ask_qty,
}
use hftalgorithms.OrderBook.Levels.{first_price, first_quantity}
use hftalgorithms.OrderBook
use hftalgorithms.Symbols.{
  SymbolManager, SymbolSlot, new_slot, ids, make_slots, init, with_slot, flush_top_of_book,
  on_new_order, on_delete_order, on_modify_order, on_trade, reset_book, store_positions, on_fill,
  book_profit, shifted,
}

-- The four cached values are those of the slot's book.
pub record IsFlushed (s : SymbolSlot) : Type 0 where
  pub bid_price : s.best_bid_price ≡ get_best_bid_price s.book
  pub bid_qty : s.best_bid_qty ≡ get_best_bid_qty s.book
  pub ask_price : s.best_ask_price ≡ get_best_ask_price s.book
  pub ask_qty : s.best_ask_qty ≡ get_best_ask_qty s.book

-- Every slot's cache is that of its book.
abbrev pub IsCached : {D : Type 0} → SymbolManager D → Type 0
IsCached m = (id : ℕ) (s : SymbolSlot) → lookup id m.slots ≡ some s → IsFlushed s

flush-IsFlushed : (s : SymbolSlot) → IsFlushed (flush_top_of_book s)
unfolding flush_top_of_book
flush-IsFlushed s = record { bid_price = refl; bid_qty = refl; ask_price = refl; ask_qty = refl }

new_slot-IsFlushed : (id : ℕ) → IsFlushed (new_slot id)
unfolding OrderBook.init get_best_bid_price get_best_bid_qty get_best_ask_price get_best_ask_qty
    first_price first_quantity
new_slot-IsFlushed id = record {
  bid_price = refl;
  bid_qty = refl;
  ask_price = refl;
  ask_qty = refl;
}

emptied :
    (s : SymbolSlot) (id : ℕ)
    → IsFlushed (record s {
      book = OrderBook.init id;
      best_bid_price = pos 0;
      best_bid_qty = 0;
      best_ask_price = pos 0;
      best_ask_qty = 0;
    })
unfolding OrderBook.init get_best_bid_price get_best_bid_qty get_best_ask_price get_best_ask_qty
    first_price first_quantity
emptied s id = record { bid_price = refl; bid_qty = refl; ask_price = refl; ask_qty = refl }

-- What the owner of a manager calls: the market data thread, the fill thread and the start-up.
pub data Event : Type 0 where
  adds : ℕ → NewOrder → Event
  deletes : ℕ → DeleteOrder → Event
  modifies : ℕ → ModifyOrder → Event
  trades : ℕ → Trade → Event
  resets : ℕ → Event
  fills : ℕ → Side → ℕ → ℤ → Event
  loads : List (ℕ × ℤ) → Event

-- The ids that have a slot.
abbrev pub IsListed : ℕ → Type 0
IsListed id = (1 ≤ id) × (id ≤ 13)

-- Every listed id has its slot, and every slot's cache is that of its book.
pub record IsReady {D : Type 0} (m : SymbolManager D) : Type 0 where
  pub cached : IsCached m
  pub present : (id : ℕ) → IsListed id → (s : SymbolSlot) × (lookup id m.slots ≡ some s)

-- An operation has succeeded and leaves the manager ready.
abbrev pub Succeeds : {D : Type 0} → Option (SymbolManager D) → Type 0
Succeeds {D} result = (m : SymbolManager D) × (result ≡ some m) × IsReady m

abbrev pub AreListed : Event → Type 0
AreListed (adds id msg) = IsListed id
AreListed (deletes id msg) = IsListed id
AreListed (modifies id msg) = IsListed id
AreListed (trades id msg) = IsListed id
AreListed (resets id) = IsListed id
AreListed (fills id side qty price) = IsListed id
AreListed (loads lines) = All (λ l. IsListed l.0) lines

module _ {D : Type 0} where
  pub insert-IsReady :
      (id : ℕ) (s : SymbolSlot) (m : SymbolManager D)
      → IsFlushed s
      → IsReady m
      → IsReady (record m { slots = insert id s m.slots })
  insert-IsReady id s m flushed r = record {
    cached = insert_keeps IsFlushed id s m.slots flushed r.cached;
    present = λ j h. elim (Bool-cases (id == j)) [
      | inl same ↦ (s, lookup-insert id j s m.slots ∙ rw same refl)
      | inr other ↦
          let (t, e) = r.present j h in (t, lookup-insert id j s m.slots ∙ rw (other, e) refl)
    ];
  }

  pub with_slot-Succeeds :
      (id : ℕ) (f : SymbolSlot → SymbolSlot) (m : SymbolManager D)
      → IsListed id
      → ((s : SymbolSlot) → IsFlushed s → IsFlushed (f s))
      → IsReady m
      → Succeeds (with_slot id f m)
  unfolding with_slot
  with_slot-Succeeds id f m h keeps r =
      let (s, e) = r.present id h in
      (
        record m { slots = insert id (f s) m.slots },
        rw (e, with_slot) refl,
        insert-IsReady id (f s) m (keeps s (r.cached id s e)) r,
      )

  pub store_positions-Succeeds :
      (lines : List (ℕ × ℤ)) (m : SymbolManager D)
      → All (λ l. IsListed l.0) lines
      → IsReady m
      → Succeeds (store_positions lines m)
  unfolding store_positions
  store_positions-Succeeds [] m h r = (m, refl, r)
  store_positions-Succeeds ((id, p) ∷ lines) m h r =
      let (m', e, r') =
        with_slot-Succeeds id (λ s. record s { position = p }) m h.0
          (λ s f. record {
            bid_price = f.bid_price;
            bid_qty = f.bid_qty;
            ask_price = f.ask_price;
            ask_qty = f.ask_qty;
          })
          r in
      let (out, e', r'') = store_positions-Succeeds lines m' h.1 r' in
      (out, rw (e, store_positions) e', r'')

make_slots-IsFlushed :
    (js : List ℕ) (id : ℕ) (s : SymbolSlot) → lookup id (make_slots js) ≡ some s → IsFlushed s
unfolding make_slots lookup
make_slots-IsFlushed [] id s e = absurd (none-ne-some s e)
make_slots-IsFlushed (j ∷ js) id s e =
    insert_keeps IsFlushed j (new_slot j) (make_slots js) (new_slot-IsFlushed j)
      (make_slots-IsFlushed js) id s e

listed_found : (id : ℕ) → IsListed id → contains id (make_slots ids) ≡ true
unfolding make_slots insert contains lookup
listed_found id h = ground (arith, h)

pub make_slots_present :
    (id : ℕ) → IsListed id → (s : SymbolSlot) × (lookup id (make_slots ids) ≡ some s)
unfolding contains
make_slots_present id h = elim (Option-cases (lookup id (make_slots ids))) [
  | inl e ↦ absurd (true≢false (sym (listed_found id h) ∙ rw (e, contains) refl))
  | inr found ↦ found
]

module _ {D : Type 0} ⦃d : Double D⦄ where
  pub init-IsReady : IsReady (init {D = D})
  unfolding init
  init-IsReady = record { cached = make_slots-IsFlushed ids; present = make_slots_present }

  fill-Succeeds :
      (id : ℕ) (side : Side) (qty : ℕ) (price : ℤ) (m : SymbolManager D)
      → IsListed id
      → IsReady m
      → Succeeds (on_fill id side qty price m)
  unfolding on_fill book_profit
  fill-Succeeds id side qty price m h r =
      let (s, e) = r.present id h in
      let f = r.cached id s e in
      let s' = record s { position = shifted side (i32_of qty) s.position } in
      let m' = record m { slots = insert id s' m.slots } in
      let kept =
        insert-IsReady id s' m
          (record {
            bid_price = f.bid_price;
            bid_qty = f.bid_qty;
            ask_price = f.ask_price;
            ask_qty = f.ask_qty;
          })
          r in
      (
        book_profit id side qty price s.position m',
        rw (e, on_fill) refl,
        record { cached = kept.cached; present = kept.present },
      )

  unfoldable pub step : Event → SymbolManager D → Option (SymbolManager D)
  step (adds id msg) m = on_new_order id msg m
  step (deletes id msg) m = on_delete_order id msg m
  step (modifies id msg) m = on_modify_order id msg m
  step (trades id msg) m = on_trade id msg m
  step (resets id) m = reset_book id m
  step (fills id side qty price) m = on_fill id side qty price m
  step (loads lines) m = store_positions lines m

  unfoldable pub run : List Event → SymbolManager D → Option (SymbolManager D)
  run [] m = some m
  run (e ∷ es) m = elim (step e m) [ none ↦ none | some m' ↦ run es m' ]

  pub step-Succeeds :
      (e : Event) (m : SymbolManager D) → AreListed e → IsReady m → Succeeds (step e m)
  unfolding step on_new_order on_delete_order on_modify_order on_trade reset_book
  step-Succeeds (adds id msg) m h r = with_slot-Succeeds id _ m h (λ s f. flush-IsFlushed _) r
  step-Succeeds (deletes id msg) m h r = with_slot-Succeeds id _ m h (λ s f. flush-IsFlushed _) r
  step-Succeeds (modifies id msg) m h r = with_slot-Succeeds id _ m h (λ s f. flush-IsFlushed _) r
  step-Succeeds (trades id msg) m h r = with_slot-Succeeds id _ m h (λ s f. flush-IsFlushed _) r
  step-Succeeds (resets id) m h r = with_slot-Succeeds id _ m h (λ s f. emptied s id) r
  step-Succeeds (fills id side qty price) m h r = fill-Succeeds id side qty price m h r
  step-Succeeds (loads lines) m h r = store_positions-Succeeds lines m h r

  -- Any sequence of market data, fills, resets and loaded positions for listed ids succeeds, and
  -- after it every slot's cached prices and quantities are those at the top of its book.
  pub run-IsReady :
      (es : List Event) (m : SymbolManager D) → All AreListed es → IsReady m → Succeeds (run es m)
  unfolding run
  run-IsReady [] m h r = (m, refl, r)
  run-IsReady (e ∷ es) m h r =
      let (m', done, r') = step-Succeeds e m h.0 r in
      let (out, done', r'') = run-IsReady es m' h.1 r' in (out, rw (done, run) done', r'')

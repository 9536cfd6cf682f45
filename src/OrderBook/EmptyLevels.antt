-- ===== src/OrderBook/EmptyLevels.antt =====
-- Which handlers of orderbook.cpp keep a book free of empty price levels, and which one does not.
use hftalgorithms.Base.{
  ℕ, ◌+◌, ◌<◌, ◌≡◌, refl, true, false, none, some, [], ◌∷◌, arith, inl, inr, ltb, ◌==◌, Bool-cases,
  Option-cases, if_keeps,
}
use hftalgorithms.Base.Int.{ℤ, ltb_ℤ, add_u32, sub_u32, u32_mod}
use hftalgorithms.Base.Dict.{lookup}
use hftalgorithms.Messages.{is_buy, NewOrder, DeleteOrder, ModifyOrder, Trade}
use hftalgorithms.OrderBook.{
  OrderInfo, OrderBook, remove_level, remove_from_price_level, add_to_price_level,
  refuses_new_order, handle_new_order, handle_delete_order, handle_modify_order, handle_trade,
  delete_found, modify_found, trade_beyond, trade_within, get_best_bid_price, get_best_bid_qty,
}
use hftalgorithms.OrderBook.Levels.{
  LevelMap, Compare, greater, less, find, put, quantity_of, Ahead, first_price, first_quantity,
  IsSorted, assign-IsSorted, Ahead-assign, Ahead-erase, Ahead-trans,
}
use hftalgorithms.OrderBook.Depth.{volume, depth-remove_order, remove_level-IsSorted}
use hftalgorithms.OrderBook.Invariant.{IsConsistent, depth-le-volume, add-record}
use hftalgorithms.OrderBook.NonEmpty.{HasNoEmptyLevel, remove-HasNoEmptyLevel, add-HasNoEmptyLevel}

-- `handle_new_order` makes no empty level, if the quantities fit a uint32_t: it refuses a quantity
-- of zero.
handle_new_order-HasNoEmptyLevel :
    (msg : NewOrder) (b : OrderBook)
    → volume b.orders + msg.quantity < u32_mod
    → IsConsistent b
    → HasNoEmptyLevel b
    → HasNoEmptyLevel (handle_new_order msg b)
unfolding handle_new_order
handle_new_order-HasNoEmptyLevel msg b room c h = elim (Bool-cases (refuses_new_order msg b)) [
  | inl e ↦ rw e h
  | inr e ↦
      rw (e, add-record)
        (add-HasNoEmptyLevel msg.side msg.price msg.quantity b (not_zero msg b e)
          (λ s. omega (arith, depth-le-volume s msg.price c)) h)
]
  where
    not_zero : (m : NewOrder) (k : OrderBook) → refuses_new_order m k ≡ false → 0 < m.quantity
    not_zero m k e = unfold refuses_new_order in ground arith

-- `handle_delete_order` leaves no empty level.
handle_delete_order-HasNoEmptyLevel :
    (msg : DeleteOrder) (b : OrderBook)
    → HasNoEmptyLevel b
    → HasNoEmptyLevel (handle_delete_order msg b)
unfolding handle_delete_order delete_found
handle_delete_order-HasNoEmptyLevel msg b h = elim (Option-cases (lookup msg.order_id b.orders)) [
  | inl e ↦ rw (e, handle_delete_order) h
  | inr (o, e) ↦
      rw (e, handle_delete_order)
        (if_keeps HasNoEmptyLevel (o.symbol == b.symbol)
          (remove-HasNoEmptyLevel o.side o.price o.quantity b h) h)
]

-- `handle_trade` leaves no empty level, on any of its branches.
handle_trade-HasNoEmptyLevel :
    (msg : Trade) (b : OrderBook) → HasNoEmptyLevel b → HasNoEmptyLevel (handle_trade msg b)
unfolding handle_trade trade_beyond trade_within
handle_trade-HasNoEmptyLevel msg b h = elim (Option-cases (lookup msg.order_id b.orders)) [
  | inl e ↦ rw (e, handle_trade) h
  | inr (o, e) ↦
      rw (e, handle_trade)
        (if_keeps HasNoEmptyLevel (o.symbol == b.symbol)
          (if_keeps HasNoEmptyLevel (ltb o.quantity msg.quantity)
            (remove-HasNoEmptyLevel o.side o.price o.quantity b h)
            (remove-HasNoEmptyLevel o.side o.price msg.quantity b h))
          h)
]

-- `handle_modify_order` leaves no empty level if the new quantity is not zero and the quantities fit
-- a uint32_t. It makes no such check itself.
handle_modify_order-HasNoEmptyLevel :
    (msg : ModifyOrder) (b : OrderBook)
    → 0 < msg.quantity
    → volume b.orders + msg.quantity < u32_mod
    → IsConsistent b
    → HasNoEmptyLevel b
    → HasNoEmptyLevel (handle_modify_order msg b)
unfolding handle_modify_order modify_found
handle_modify_order-HasNoEmptyLevel msg b q room c h =
    elim (Option-cases (lookup msg.order_id b.orders)) [
      | inl e ↦ rw (e, handle_modify_order) h
      | inr (o, e) ↦
          rw (e, handle_modify_order)
            (if_keeps HasNoEmptyLevel (o.symbol == b.symbol) (rw add-record (replaced o)) h)
    ]
  where
    replaced :
        (o : OrderInfo)
        → HasNoEmptyLevel (
            add_to_price_level msg.side msg.price msg.quantity
              (remove_from_price_level o.side o.price o.quantity b))
    replaced o =
        add-HasNoEmptyLevel msg.side msg.price msg.quantity _ q
          (λ s. omega (
            arith,
            depth-le-volume s msg.price c,
            depth-remove_order s msg.price o b
                (omega (arith, depth-le-volume (is_buy o.side) o.price c)),
            c.fits,
          ))
          (remove-HasNoEmptyLevel o.side o.price o.quantity b h)

-- A price ahead of all levels stays so when quantity is taken off.
remove_level-Ahead :
    (c : Compare) (p r : ℤ) (q : ℕ) (m : LevelMap)
    → IsSorted c m
    → Ahead c p m
    → Ahead c p (remove_level r q m)
unfolding remove_level
remove_level-Ahead c p r q m s a = elim (Option-cases (find r m)) [
  | inl e ↦ rw (e, remove_level) a
  | inr (held, e) ↦
      let n = sub_u32 held q in
      let set = Ahead-assign c p r n m a in
      rw (e, remove_level)
        (if_keeps (Ahead c p) (ltb held q) (Ahead-erase c p r m s a)
          (if_keeps (Ahead c p) (n == 0) (Ahead-erase c p r _ (assign-IsSorted c r n m s) set) set))
]

first-put :
    (c : Compare) (p : ℤ) (q : ℕ) (m : LevelMap)
    → Ahead c p m
    → (first_price (put c p q m) ≡ p) × (first_quantity (put c p q m) ≡ q)
unfolding first_price first_quantity put
first-put c p q [] a = (refl, refl)
first-put greater p q ((r, s) ∷ m) a = ground arith
first-put less p q ((r, s) ∷ m) a = ground arith

find-Ahead : (c : Compare) (p : ℤ) (m : LevelMap) → IsSorted c m → Ahead c p m → find p m ≡ none
unfolding find
find-Ahead c p [] s a = refl
find-Ahead greater p ((r, q) ∷ m) s a =
    ground (arith, find-Ahead greater p m s.1 (Ahead-trans greater p r m a s.0))
find-Ahead less p ((r, q) ∷ m) s a =
    ground (arith, find-Ahead less p m s.1 (Ahead-trans less p r m a s.0))

best-Ahead : (p : ℤ) (m : LevelMap) → ltb_ℤ (first_price m) p ≡ true → Ahead greater p m
unfolding first_price
best-Ahead p [] h = tt
best-Ahead p ((r, q) ∷ m) h = h

-- Whenever an order of a consistent book is changed into a buy order with quantity 0 and a price
-- above the best bid, the best bid becomes that price, with quantity 0.
pub modify_zero_empty_top :
    (msg : ModifyOrder) (info : OrderInfo) (b : OrderBook)
    → IsConsistent b
    → lookup msg.order_id b.orders ≡ some info
    → info.symbol ≡ b.symbol
    → is_buy msg.side ≡ true
    → msg.quantity ≡ 0
    → ltb_ℤ (get_best_bid_price b) msg.price ≡ true
    → let b' = handle_modify_order msg b in
      (get_best_bid_price b' ≡ msg.price) × (get_best_bid_qty b' ≡ 0)
unfolding handle_modify_order modify_found add_to_price_level remove_from_price_level add_u32
    get_best_bid_price get_best_bid_qty
modify_zero_empty_top msg info b c e own side zero above =
    let m = remove_level info.price info.quantity b.bids in
    let front = best-Ahead msg.price b.bids above in
    let front' =
      remove_level-Ahead greater msg.price info.price info.quantity b.bids c.bids_sorted front in
    let sorted = remove_level-IsSorted greater info.price info.quantity b.bids c.bids_sorted in
    ground (
      arith,
      first-put greater msg.price (add_u32 (quantity_of (find msg.price m)) msg.quantity) m front',
      find-Ahead greater msg.price m sorted front',
      first-put greater msg.price (add_u32 (quantity_of (find msg.price b.bids)) msg.quantity)
          b.bids front,
      find-Ahead greater msg.price b.bids c.bids_sorted front,
    )

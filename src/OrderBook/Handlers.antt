-- ===== src/OrderBook/Handlers.antt =====
-- Every handler of orderbook.cpp keeps the book's invariant, on each of its branches.
use hftalgorithms.Base.{
  ℕ, ◌+◌, ◌<◌, ◌≡◌, true, false, none, some, arith, inl, inr, ltb, ◌==◌, if◌then◌else◌, Bool-cases,
  Option-cases, if_keeps,
}
use hftalgorithms.Base.Int.{sub_u32, u32_mod}
use hftalgorithms.Base.Dict.{total, lookup, contains}
use hftalgorithms.Messages.{NewOrder, DeleteOrder, ModifyOrder, Trade}
use hftalgorithms.OrderBook.{
  OrderInfo, OrderBook, init, info_of, modified, handle_new_order, handle_delete_order,
  handle_modify_order, handle_trade, delete_found, modify_found, trade_beyond, trade_within,
  refuses_new_order,
}
use hftalgorithms.OrderBook.Levels.{find}
use hftalgorithms.OrderBook.Depth.{volume}
use hftalgorithms.OrderBook.Invariant.{
  IsConsistent, quantity-lt, remove-orders, remove-IsConsistent, add-IsConsistent,
  lower-IsConsistent, add-record, replace-IsConsistent,
}

-- A new book is consistent.
pub init-IsConsistent : (symbol_id : ℕ) → IsConsistent (init symbol_id)
unfolding init total find
init-IsConsistent symbol_id = record {
  unique = tt;
  bids_sorted = tt;
  asks_sorted = tt;
  depths = λ s p. ground arith;
  fits = omega arith;
}

fresh_of_accepted :
    (msg : NewOrder) (b : OrderBook)
    → refuses_new_order msg b ≡ false
    → lookup msg.order_id b.orders ≡ none
unfolding refuses_new_order contains
fresh_of_accepted msg b e = ground arith

-- `handle_new_order` keeps the book consistent, whether it takes the order or refuses it, if the
-- resting quantity with the message's still fits a uint32_t.
pub handle_new_order-IsConsistent :
    (msg : NewOrder) (b : OrderBook)
    → volume b.orders + msg.quantity < u32_mod
    → IsConsistent b
    → IsConsistent (handle_new_order msg b)
unfolding handle_new_order
handle_new_order-IsConsistent msg b room c = elim (Bool-cases (refuses_new_order msg b)) [
  | inl e ↦ rw e c
  | inr e ↦
      rw (e, add-record)
        (add-IsConsistent msg.order_id msg.header.seq_num (info_of msg) (fresh_of_accepted msg b e)
          room c)
]

-- `handle_delete_order` keeps the book consistent.
pub handle_delete_order-IsConsistent :
    (msg : DeleteOrder) (b : OrderBook) → IsConsistent b → IsConsistent (handle_delete_order msg b)
unfolding handle_delete_order delete_found
handle_delete_order-IsConsistent msg b c = elim (Option-cases (lookup msg.order_id b.orders)) [
  | inl e ↦ rw (e, handle_delete_order) c
  | inr (info, e) ↦
      rw (e, handle_delete_order)
        (if_keeps IsConsistent (info.symbol == b.symbol)
          (rw remove-orders (remove-IsConsistent msg.order_id msg.header.seq_num info e c)) c)
]

-- `handle_modify_order` keeps the book consistent, if the resting quantity with the message's still
-- fits a uint32_t.
pub handle_modify_order-IsConsistent :
    (msg : ModifyOrder) (b : OrderBook)
    → volume b.orders + msg.quantity < u32_mod
    → IsConsistent b
    → IsConsistent (handle_modify_order msg b)
unfolding handle_modify_order modify_found
handle_modify_order-IsConsistent msg b room c = elim (Option-cases (lookup msg.order_id b.orders)) [
  | inl e ↦ rw (e, handle_modify_order) c
  | inr (info, e) ↦
      rw (e, handle_modify_order)
        (if_keeps IsConsistent (info.symbol == b.symbol)
          (rw (remove-orders, add-record)
            (replace-IsConsistent msg.order_id msg.header.seq_num info (modified msg info) e room
              c))
          c)
]

same_quantity : (q q' : ℕ) → q < u32_mod → ltb q q' ≡ false → (sub_u32 q q' == 0) ≡ true → q ≡ q'
unfolding sub_u32
same_quantity q q' small within done = ground arith

trade_within-IsConsistent :
    (msg : Trade) (info : OrderInfo) {b : OrderBook}
    → lookup msg.order_id b.orders ≡ some info
    → ltb info.quantity msg.quantity ≡ false
    → IsConsistent b
    → IsConsistent (trade_within msg info b)
unfolding trade_within
trade_within-IsConsistent msg info e within c =
    elim (Bool-cases (sub_u32 info.quantity msg.quantity == 0)) [
      | inl done ↦
          rw
            (
              done,
              remove-orders,
              ← same_quantity info.quantity msg.quantity (quantity-lt msg.order_id info e c) within
                  done,
            )
            (remove-IsConsistent msg.order_id msg.header.seq_num info e c)
      | inr more ↦
          rw (more, remove-orders)
            (lower-IsConsistent msg.order_id msg.header.seq_num msg.quantity info e (ground arith)
              c)
    ]

trade_beyond-IsConsistent :
    (msg : Trade) (info : OrderInfo) {b : OrderBook}
    → lookup msg.order_id b.orders ≡ some info
    → IsConsistent b
    → IsConsistent (trade_beyond msg info b)
unfolding trade_beyond
trade_beyond-IsConsistent msg info e c =
    rw remove-orders (remove-IsConsistent msg.order_id _ info e c)

trade-IsConsistent :
    (msg : Trade) (info : OrderInfo) {b : OrderBook}
    → lookup msg.order_id b.orders ≡ some info
    → IsConsistent b
    → IsConsistent (
        if ltb info.quantity msg.quantity then trade_beyond msg info b else trade_within msg info b)
trade-IsConsistent msg info e c = elim (Bool-cases (ltb info.quantity msg.quantity)) [
  | inl over ↦ rw over (trade_beyond-IsConsistent msg info e c)
  | inr within ↦ rw within (trade_within-IsConsistent msg info e within c)
]

-- `handle_trade` keeps the book consistent, for a partial fill, a full one and a trade for more than
-- the order has.
pub handle_trade-IsConsistent :
    (msg : Trade) (b : OrderBook) → IsConsistent b → IsConsistent (handle_trade msg b)
unfolding handle_trade
handle_trade-IsConsistent msg b c = elim (Option-cases (lookup msg.order_id b.orders)) [
  | inl e ↦ rw (e, handle_trade) c
  | inr (info, e) ↦
      rw (e, handle_trade)
        (if_keeps IsConsistent (info.symbol == b.symbol) (trade-IsConsistent msg info e c) c)
]

-- ===== src/OrderBook/Tests.antt =====
-- A book with one order on each side, and the theorems on the book of orderbook.cpp at it.
use hftalgorithms.Base.{ℕ, ◌≡◌, refl, true, false, [], ◌∷◌, arith}
use hftalgorithms.Base.Int.{pos, ◌≤ℤ◌, ltb_ℤ, add_u32}
use hftalgorithms.Base.Dict.{lookup, insert, contains, total}
use hftalgorithms.Messages.{
  buy, sell, MdHeader, NewOrder, DeleteOrder, ModifyOrder, Trade, new_order,
}
use hftalgorithms.OrderBook.{
  OrderBook, init, info_of, handle_new_order, refuses_new_order, add_to_price_level,
  handle_delete_order, handle_modify_order, handle_trade, get_best_bid_price, get_best_bid_qty,
  get_best_ask_price, get_best_ask_qty, is_crossed, is_empty,
}
use hftalgorithms.OrderBook.Levels.{find, put, first_price}
use hftalgorithms.OrderBook.Depth.{resting}
use hftalgorithms.OrderBook.Invariant.{IsConsistent}
use hftalgorithms.OrderBook.Handlers.{
  init-IsConsistent, handle_new_order-IsConsistent, handle_delete_order-IsConsistent,
  handle_modify_order-IsConsistent, handle_trade-IsConsistent,
}
use hftalgorithms.OrderBook.Best.{best_prices, best_quantities, uncrossed}
use hftalgorithms.OrderBook.NonEmpty.{HasNoEmptyLevel}
use hftalgorithms.OrderBook.EmptyLevels.{modify_zero_empty_top}

abbrev header_of : ℕ → MdHeader
header_of n = record {
  magic_number = 0;
  length = 0;
  seq_num = n;
  timestamp = 0;
  msg_type = new_order;
}

abbrev bid_msg : NewOrder
bid_msg = record {
  header = header_of 1;
  order_id = 1;
  symbol = 1;
  side = buy;
  quantity = 5;
  price = pos 100;
  flags = 0;
}

abbrev ask_msg : NewOrder
ask_msg = record {
  header = header_of 2;
  order_id = 2;
  symbol = 1;
  side = sell;
  quantity = 7;
  price = pos 105;
  flags = 0;
}

abbrev delete_msg : DeleteOrder
delete_msg = record { header = header_of 3; order_id = 1 }

abbrev modify_msg : ModifyOrder
modify_msg = record {
  header = header_of 3;
  order_id = 1;
  side = sell;
  quantity = 9;
  price = pos 106;
}

abbrev zero_msg : ModifyOrder
zero_msg = record { header = header_of 3; order_id = 1; side = buy; quantity = 0; price = pos 103 }

abbrev trade_msg : Trade
trade_msg = record { header = header_of 3; order_id = 2; quantity = 3; price = pos 105 }

abbrev book : OrderBook
book = record {
  symbol = 1;
  last_seq_num = 2;
  orders = (1, info_of bid_msg) ∷ (2, info_of ask_msg) ∷ [];
  bids = (pos 100, 5) ∷ [];
  asks = (pos 105, 7) ∷ [];
}

built : handle_new_order ask_msg (handle_new_order bid_msg (init 1)) ≡ book
unfolding handle_new_order refuses_new_order add_to_price_level init insert contains lookup find put
    add_u32
built = refl

bid_only-IsConsistent : IsConsistent (handle_new_order bid_msg (init 1))
bid_only-IsConsistent =
    handle_new_order-IsConsistent bid_msg (init 1) (unfold init in unfold total in omega arith)
      (init-IsConsistent 1)

book-IsConsistent : IsConsistent book
unfolding handle_new_order refuses_new_order add_to_price_level init insert contains lookup find put
    add_u32 total
book-IsConsistent =
    handle_new_order-IsConsistent ask_msg (handle_new_order bid_msg (init 1)) (omega arith)
      bid_only-IsConsistent

book-HasNoEmptyLevel : HasNoEmptyLevel book
book-HasNoEmptyLevel = omega arith

handle_new_order-IsConsistent_example : IsConsistent (handle_new_order bid_msg (init 1))
unfolding init total
handle_new_order-IsConsistent_example =
    handle_new_order-IsConsistent bid_msg (init 1) (omega arith) (init-IsConsistent 1)

handle_delete_order-IsConsistent_example : IsConsistent (handle_delete_order delete_msg book)
handle_delete_order-IsConsistent_example =
    handle_delete_order-IsConsistent delete_msg book book-IsConsistent

handle_modify_order-IsConsistent_example : IsConsistent (handle_modify_order modify_msg book)
unfolding total
handle_modify_order-IsConsistent_example =
    handle_modify_order-IsConsistent modify_msg book (omega arith) book-IsConsistent

handle_trade-IsConsistent_example : IsConsistent (handle_trade trade_msg book)
handle_trade-IsConsistent_example = handle_trade-IsConsistent trade_msg book book-IsConsistent

best_prices_example : pos 100 ≤ℤ get_best_bid_price book
unfolding lookup
best_prices_example = best_prices book 1 (info_of bid_msg) book-IsConsistent refl (omega arith)

best_quantities_example :
    (get_best_bid_qty book ≡ total (resting true (get_best_bid_price book)) book.orders)
    × (get_best_ask_qty book ≡ total (resting false (get_best_ask_price book)) book.orders)
best_quantities_example = best_quantities book book-IsConsistent

uncrossed_example : ltb_ℤ (pos 100) (pos 105) ≡ true
unfolding lookup is_crossed is_empty first_price
uncrossed_example =
    uncrossed book 1 2 (info_of bid_msg) (info_of ask_msg) book-IsConsistent refl refl refl
      (omega arith) refl refl (omega arith)

modify_zero_empty_top_example :
    let b' = handle_modify_order zero_msg book in
    (get_best_bid_price b' ≡ pos 103) × (get_best_bid_qty b' ≡ 0)
unfolding lookup get_best_bid_price first_price
modify_zero_empty_top_example =
    modify_zero_empty_top zero_msg (info_of bid_msg) book book-IsConsistent refl refl refl refl refl

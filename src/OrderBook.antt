-- ===== src/OrderBook.antt =====
-- orderbook.h and orderbook.cpp: one symbol's book. The handlers return the new book; what they
-- print is left out, since no state depends on it.
pub mod Levels
pub mod Depth
pub mod Invariant
pub mod Handlers
pub mod Best
pub mod NonEmpty
pub mod EmptyLevels
mod Tests
use hftalgorithms.Base.{
  ℕ, ◌+◌, ◌≡◌, Bool, true, false, Option, none, some, [], ◌∷◌, ◌||◌, ltb, ◌==◌, if◌then◌else◌,
}
use hftalgorithms.Base.Int.{ℤ, pos, ltb_ℤ, leb_ℤ, add_u32, sub_u32}
use hftalgorithms.Base.Dict.{Dict}
use hftalgorithms.Base.Dict
use hftalgorithms.Messages.{
  Side, is_buy, is_sell, is_new_order, NewOrder, DeleteOrder, ModifyOrder, Trade,
}
use Levels.{
  LevelMap, greater, less, find, put, assign, erase, quantity_of, first_price, first_quantity,
}

pub record OrderInfo : Type 0 where
  pub price : ℤ
  pub quantity : ℕ
  pub side : Side
  pub symbol : ℕ

pub record OrderBook : Type 0 where
  pub symbol : ℕ
  pub last_seq_num : ℕ
  pub orders : Dict OrderInfo
  pub bids : LevelMap
  pub asks : LevelMap

-- The constructor.
unfoldable pub init : ℕ → OrderBook
init symbol_id = record { symbol = symbol_id; last_seq_num = 0; orders = []; bids = []; asks = [] }

pub add_to_price_level : Side → ℤ → ℕ → OrderBook → OrderBook
add_to_price_level side price quantity b =
    if is_buy side
    then record b {
      bids = put greater price (add_u32 (quantity_of (find price b.bids)) quantity) b.bids;
    }
    else record b {
      asks = put less price (add_u32 (quantity_of (find price b.asks)) quantity) b.asks;
    }

-- The body of either branch below, on the map of its side.
pub remove_level : ℤ → ℕ → LevelMap → LevelMap
remove_level price quantity m = elim (find price m) [
  | none ↦ m
  | some held ↦
      if ltb held quantity
      then erase price m
      else if sub_u32 held quantity == 0
      then erase price (assign price (sub_u32 held quantity) m)
      else assign price (sub_u32 held quantity) m
]

pub remove_from_price_level : Side → ℤ → ℕ → OrderBook → OrderBook
remove_from_price_level side price quantity b =
    if is_buy side
    then record b { bids = remove_level price quantity b.bids }
    else record b { asks = remove_level price quantity b.asks }

abbrev pub info_of : NewOrder → OrderInfo
info_of msg = record {
  price = msg.price;
  quantity = msg.quantity;
  side = msg.side;
  symbol = msg.symbol;
}

-- The checks of `handle_new_order`, in order: its early returns.
pub refuses_new_order : NewOrder → OrderBook → Bool
refuses_new_order msg b =
    if is_new_order msg.header.msg_type
    then if is_buy msg.side || is_sell msg.side
      then if Dict.contains msg.order_id b.orders
        then true
        else if msg.quantity == 0
        then true
        else ltb_ℤ msg.price (pos 0)
      else true
    else true

pub handle_new_order : NewOrder → OrderBook → OrderBook
handle_new_order msg b =
    if refuses_new_order msg b
    then b
    else record (add_to_price_level msg.side msg.price msg.quantity
        (record b { orders = Dict.insert msg.order_id (info_of msg) b.orders })) {
          last_seq_num = msg.header.seq_num;
        }

-- `handle_delete_order` once the order is found and is of this book's symbol.
pub delete_found : DeleteOrder → OrderInfo → OrderBook → OrderBook
delete_found msg info b =
    let b' = remove_from_price_level info.side info.price info.quantity b in
    record b' { orders = Dict.erase msg.order_id b'.orders; last_seq_num = msg.header.seq_num }

pub handle_delete_order : DeleteOrder → OrderBook → OrderBook
handle_delete_order msg b = elim (Dict.lookup msg.order_id b.orders) [
  | none ↦ b
  | some info ↦ if info.symbol == b.symbol then delete_found msg info b else b
]

abbrev pub modified : ModifyOrder → OrderInfo → OrderInfo
modified msg info = record info { price = msg.price; quantity = msg.quantity; side = msg.side }

-- `handle_modify_order` once the order is found and is of this book's symbol.
pub modify_found : ModifyOrder → OrderInfo → OrderBook → OrderBook
modify_found msg info b =
    let b' = remove_from_price_level info.side info.price info.quantity b in
    record (add_to_price_level msg.side msg.price msg.quantity
      (record b' { orders = Dict.insert msg.order_id (modified msg info) b'.orders })) {
        last_seq_num = msg.header.seq_num;
      }

pub handle_modify_order : ModifyOrder → OrderBook → OrderBook
handle_modify_order msg b = elim (Dict.lookup msg.order_id b.orders) [
  | none ↦ b
  | some info ↦ if info.symbol == b.symbol then modify_found msg info b else b
]

-- A trade for more than the order has.
pub trade_beyond : Trade → OrderInfo → OrderBook → OrderBook
trade_beyond msg info b =
    let b' = remove_from_price_level info.side info.price info.quantity b in
    record b' { orders = Dict.erase msg.order_id b'.orders }

-- A trade for at most what the order has.
pub trade_within : Trade → OrderInfo → OrderBook → OrderBook
trade_within msg info b =
    let b' = remove_from_price_level info.side info.price msg.quantity b in
    let left = sub_u32 info.quantity msg.quantity in
    record b' {
      orders =
          if left == 0
          then Dict.erase msg.order_id b'.orders
          else Dict.insert msg.order_id (record info { quantity = left }) b'.orders;
      last_seq_num = msg.header.seq_num;
    }

pub handle_trade : Trade → OrderBook → OrderBook
handle_trade msg b = elim (Dict.lookup msg.order_id b.orders) [
  | none ↦ b
  | some info ↦
      if info.symbol == b.symbol
      then if ltb info.quantity msg.quantity
        then trade_beyond msg info b
        else trade_within msg info b
      else b
]

unfoldable pub get_best_bid_price : OrderBook → ℤ
get_best_bid_price b = first_price b.bids

unfoldable pub get_best_bid_qty : OrderBook → ℕ
get_best_bid_qty b = first_quantity b.bids

unfoldable pub get_best_ask_price : OrderBook → ℤ
get_best_ask_price b = first_price b.asks

unfoldable pub get_best_ask_qty : OrderBook → ℕ
get_best_ask_qty b = first_quantity b.asks

pub is_empty : LevelMap → Bool
is_empty [] = true
is_empty (l ∷ m) = false

pub is_crossed : OrderBook → Bool
unfolding is_empty
is_crossed b =
    if is_empty b.bids || is_empty b.asks
    then false
    else leb_ℤ (first_price b.asks) (first_price b.bids)

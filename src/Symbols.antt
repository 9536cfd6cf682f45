-- ===== src/Symbols.antt =====
-- symbol_manager.h and symbol_manager.cpp: a book, its top-of-book cache and a position per symbol.
-- An operation on an index with no slot dereferences a null pointer or is out of the array; the
-- model answers `none` there.
pub mod Cache
pub mod Nav
pub mod Positions
pub mod Profit
pub mod File
pub mod Saved
mod Tests
use hftalgorithms.Base.{
  ℕ, ◌+◌, ◌*◌, ◌%◌, ◌≡◌, Bool, true, false, Option, none, some, List, [], ◌∷◌, ◌++◌, ◌&&◌, ◌||◌,
  leb, ltb, ◌==◌, if◌then◌else◌,
}
use hftalgorithms.Base.Int.{
  ℤ, pos, negsuc, ◌+ℤ◌, ◌-ℤ◌, ltb_ℤ, eqb_ℤ, max_ℤ, abs_i32, wrap32, i32_of, u32_of, u32_mod,
}
use hftalgorithms.Base.Double.{Double}
use hftalgorithms.Base.Dict.{Dict, lookup, insert}
use hftalgorithms.Messages.{Side, is_buy, is_sell, NewOrder, DeleteOrder, ModifyOrder, Trade}
use hftalgorithms.OrderBook.{
  OrderBook, handle_new_order, handle_delete_order, handle_modify_order, handle_trade,
  get_best_bid_price, get_best_bid_qty, get_best_ask_price, get_best_ask_qty,
}
use hftalgorithms.OrderBook

pub record SymbolSlot : Type 0 where
  pub book : OrderBook
  pub best_bid_price : ℤ
  pub best_bid_qty : ℕ
  pub best_ask_price : ℤ
  pub best_ask_qty : ℕ
  pub position : ℤ

-- The constructor of a slot.
abbrev pub new_slot : ℕ → SymbolSlot
new_slot id = record {
  book = OrderBook.init id;
  best_bid_price = pos 0;
  best_bid_qty = 0;
  best_ask_price = pos 0;
  best_ask_qty = 0;
  position = pos 0;
}

unfoldable pub flush_top_of_book : SymbolSlot → SymbolSlot
flush_top_of_book s = record s {
  best_bid_price = get_best_bid_price s.book;
  best_bid_qty = get_best_bid_qty s.book;
  best_ask_price = get_best_ask_price s.book;
  best_ask_qty = get_best_ask_qty s.book;
}

-- The arrays have their entries under the index; an average entry price that has not been set is 0.
pub record SymbolManager (D : Type 0) : Type 0 where
  pub slots : Dict SymbolSlot
  pub total_pnl : D
  pub avg_entry_price : Dict D

-- The ids that a loop `for (id = 1; id <= 13; ++id)` visits.
abbrev pub ids : List ℕ
ids = 1 ∷ 2 ∷ 3 ∷ 4 ∷ 5 ∷ 6 ∷ 7 ∷ 8 ∷ 9 ∷ 10 ∷ 11 ∷ 12 ∷ 13 ∷ []

-- DORM_IDS: KNAN, STED, FISH, DILN, SORN, RYAN, LYON, WLSH, LEWI, BDIN
abbrev pub dorm_ids : List ℕ
dorm_ids = 3 ∷ 4 ∷ 5 ∷ 6 ∷ 7 ∷ 8 ∷ 9 ∷ 10 ∷ 11 ∷ 12 ∷ []

abbrev pub sym_undy : ℕ
sym_undy = 13

abbrev pub position_limit : ℤ
position_limit = pos 9

-- The loop of the constructor.
unfoldable pub make_slots : List ℕ → Dict SymbolSlot
make_slots [] = []
make_slots (id ∷ rest) = insert id (new_slot id) (make_slots rest)

-- `position + qty` or `position - qty`, both of int32_t.
abbrev pub shifted : Side → ℤ → ℤ → ℤ
shifted side qty position = wrap32 (if is_buy side then position +ℤ qty else position -ℤ qty)

abbrev pub is_reducing : Side → ℤ → Bool
is_reducing side old_pos =
    (is_sell side && ltb_ℤ (pos 0) old_pos) || (is_buy side && ltb_ℤ old_pos (pos 0))

module _ {D : Type 0} where
  -- A change of the slot at an index.
  unfoldable pub with_slot :
      ℕ → (SymbolSlot → SymbolSlot) → SymbolManager D → Option (SymbolManager D)
  with_slot id f m = elim (lookup id m.slots) [
    | none ↦ none
    | some s ↦ some (record m { slots = insert id (f s) m.slots })
  ]

  unfoldable pub on_new_order : ℕ → NewOrder → SymbolManager D → Option (SymbolManager D)
  on_new_order id msg =
      with_slot id λ s. flush_top_of_book (record s { book = handle_new_order msg s.book })

  unfoldable pub on_delete_order : ℕ → DeleteOrder → SymbolManager D → Option (SymbolManager D)
  on_delete_order id msg =
      with_slot id λ s. flush_top_of_book (record s { book = handle_delete_order msg s.book })

  unfoldable pub on_modify_order : ℕ → ModifyOrder → SymbolManager D → Option (SymbolManager D)
  on_modify_order id msg =
      with_slot id λ s. flush_top_of_book (record s { book = handle_modify_order msg s.book })

  unfoldable pub on_trade : ℕ → Trade → SymbolManager D → Option (SymbolManager D)
  on_trade id msg =
      with_slot id λ s. flush_top_of_book (record s { book = handle_trade msg s.book })

  unfoldable pub reset_book : ℕ → SymbolManager D → Option (SymbolManager D)
  reset_book id = with_slot id λ s. record s {
    book = OrderBook.init id;
    best_bid_price = pos 0;
    best_bid_qty = 0;
    best_ask_price = pos 0;
    best_ask_qty = 0;
  }

  unfoldable pub get_position : ℕ → SymbolManager D → Option ℤ
  get_position id m = elim (lookup id m.slots) [ none ↦ none | some s ↦ some s.position ]

  -- A cached value of the slot at an index.
  abbrev pub cached : {A : Type 0} → (SymbolSlot → A) → ℕ → SymbolManager D → Option A
  cached f id m = elim (lookup id m.slots) [ none ↦ none | some s ↦ some (f s) ]

  abbrev pub read_best_bid_price : ℕ → SymbolManager D → Option ℤ
  read_best_bid_price = cached λ s. s.best_bid_price

  abbrev pub read_best_ask_price : ℕ → SymbolManager D → Option ℤ
  read_best_ask_price = cached λ s. s.best_ask_price

  abbrev pub read_best_bid_qty : ℕ → SymbolManager D → Option ℕ
  read_best_bid_qty = cached λ s. s.best_bid_qty

  abbrev pub read_best_ask_qty : ℕ → SymbolManager D → Option ℕ
  read_best_ask_qty = cached λ s. s.best_ask_qty

  pub would_breach_limit : ℕ → Side → ℤ → SymbolManager D → Option Bool
  would_breach_limit id side qty m = elim (get_position id m) [
    | none ↦ none
    | some position ↦ some (ltb_ℤ position_limit (abs_i32 (shifted side qty position)))
  ]

  -- The loop of `save_positions`: the ids and positions that it writes a line for.
  pub saved_lines : List ℕ → SymbolManager D → Option (List (ℕ × ℤ))
  saved_lines [] m = some []
  saved_lines (id ∷ rest) m = elim (get_position id m) [
    | none ↦ none
    | some position ↦ elim (saved_lines rest m) [
      | none ↦ none
      | some lines ↦ some (if eqb_ℤ position (pos 0) then lines else (id, position) ∷ lines)
    ]
  ]

  -- The loop of `load_positions` over the pairs of numbers that it reads.
  pub store_positions : List (ℕ × ℤ) → SymbolManager D → Option (SymbolManager D)
  store_positions [] m = some m
  store_positions ((id, position) ∷ lines) m =
      elim (with_slot id (λ s. record s { position = position }) m) [
        | none ↦ none
        | some m' ↦ store_positions lines m'
      ]

module _ {D : Type 0} ⦃d : Double D⦄ where
  open d use {of_int, add, sub, mul, div, lt, le}

  -- The constructor.
  unfoldable pub init : SymbolManager D
  init = record { slots = make_slots ids; total_pnl = of_int (pos 0); avg_entry_price = [] }

  unfoldable pub entry_price : ℕ → SymbolManager D → D
  entry_price id m = elim (lookup id m.avg_entry_price) [ none ↦ of_int (pos 0) | some a ↦ a ]

  -- The average entry price after a buy; `price * qty` is taken in uint32_t.
  pub averaged : ℤ → ℕ → ℤ → D → D
  averaged old_pos qty price average =
      let new_qty = of_int (wrap32 (old_pos +ℤ i32_of qty)) in
      if lt (of_int (pos 0)) new_qty
      then div
          (add (mul average (of_int (max_ℤ old_pos (pos 0))))
            (of_int (pos ((u32_of price * qty) % u32_mod))))
          new_qty
      else of_int price

  pub realized : Side → ℕ → ℤ → ℤ → D → D
  realized side qty price old_pos average =
      let closing_qty =
        (if leb qty (u32_of (abs_i32 old_pos)) then qty else u32_of (abs_i32 old_pos)) in
      mul (if is_sell side then sub (of_int price) average else sub average (of_int price))
        (of_int (pos closing_qty))

  -- `on_fill` after the position has moved.
  pub book_profit : ℕ → Side → ℕ → ℤ → ℤ → SymbolManager D → SymbolManager D
  book_profit id side qty price old_pos m =
      let average =
        (if is_buy side then averaged old_pos qty price (entry_price id m) else entry_price id m) in
      record m {
        avg_entry_price =
            if is_buy side then insert id average m.avg_entry_price else m.avg_entry_price;
        total_pnl =
            if is_reducing side old_pos
            then add m.total_pnl (realized side qty price old_pos average)
            else m.total_pnl;
      }

  unfoldable pub on_fill : ℕ → Side → ℕ → ℤ → SymbolManager D → Option (SymbolManager D)
  on_fill id side qty price m = elim (lookup id m.slots) [
    | none ↦ none
    | some s ↦ some (
        book_profit id side qty price s.position (record m {
          slots = insert id (record s { position = shifted side (i32_of qty) s.position }) m.slots;
        }))
  ]

  -- PNL_WARN_LEVEL is -4500.
  unfoldable pub pnl_near_limit : SymbolManager D → Bool
  pnl_near_limit m = le m.total_pnl (of_int (negsuc 4499))

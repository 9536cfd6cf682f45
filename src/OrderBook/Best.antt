-- ===== src/OrderBook/Best.antt =====
-- What the top-of-book getters of orderbook.h say of the resting orders.
use hftalgorithms.Base.{
  ℕ, ◌<◌, ◌≡◌, refl, ◌∙◌, Bool, true, false, some, [], ◌∷◌, arith, inl, inr, if◌then◌else◌,
  Bool-cases, Option-cases,
}
use hftalgorithms.Base.Int.{ℤ, ◌≤ℤ◌, ltb_ℤ}
use hftalgorithms.Base.Dict.{total, lookup, total-erase}
use hftalgorithms.Messages.{is_buy}
use hftalgorithms.OrderBook.{
  OrderInfo, OrderBook, get_best_bid_price, get_best_bid_qty, get_best_ask_price, get_best_ask_qty,
  is_crossed, is_empty,
}
use hftalgorithms.OrderBook.Levels.{
  Compare, greater, less, LevelMap, find, IsSorted, find_behind, first_price, first_quantity,
  quantity_of,
}
use hftalgorithms.OrderBook.Depth.{depth, resting}
use hftalgorithms.OrderBook.Invariant.{IsConsistent}

-- `a` is at least as good as `b` on the side of the comparator.
abbrev NoWorse : Compare → ℤ → ℤ → Type 0
NoWorse greater a b = b ≤ℤ a
NoWorse less a b = a ≤ℤ b

first-NoWorse :
    (c : Compare) (p : ℤ) (m : LevelMap)
    → IsSorted c m
    → 0 < quantity_of (find p m)
    → NoWorse c (first_price m) p
unfolding find first_price
first-NoWorse c p [] s h = absurd (omega arith)
first-NoWorse greater p ((r, q) ∷ m) s h = elim (Option-cases (find p m)) [
  | inl e ↦ ground arith
  | inr (x, e) ↦ ground (arith, find_behind greater r p m s.1 s.0 e)
]
first-NoWorse less p ((r, q) ∷ m) s h = elim (Option-cases (find p m)) [
  | inl e ↦ ground arith
  | inr (x, e) ↦ ground (arith, find_behind less r p m s.1 s.0 e)
]

first_quantity_lem : (m : LevelMap) → first_quantity m ≡ quantity_of (find (first_price m) m)
unfolding find first_price first_quantity
first_quantity_lem [] = refl
first_quantity_lem ((p, q) ∷ m) = ground arith

-- An order with a quantity shows at its price.
depth_pos :
    (s : Bool) (id : ℕ) (o : OrderInfo) (b : OrderBook)
    → IsConsistent b
    → lookup id b.orders ≡ some o
    → is_buy o.side ≡ s
    → 0 < o.quantity
    → 0 < depth s o.price b
depth_pos s id o b c e side q =
    ground (arith, c.depths s o.price, total-erase (resting s o.price) id b.orders c.unique)

-- In a consistent book a resting buy order with a quantity is not priced above the best bid, and
-- another resting order with a quantity is not priced below the best ask.
pub best_prices :
    (b : OrderBook) (id : ℕ) (o : OrderInfo)
    → IsConsistent b
    → lookup id b.orders ≡ some o
    → 0 < o.quantity
    → if is_buy o.side then o.price ≤ℤ get_best_bid_price b else get_best_ask_price b ≤ℤ o.price
unfolding get_best_bid_price get_best_ask_price
best_prices b id o c e q = elim (Bool-cases (is_buy o.side)) [
  | inl side ↦
      rw side
        (first-NoWorse greater o.price b.bids c.bids_sorted (depth_pos true id o b c e side q))
  | inr side ↦
      rw side (first-NoWorse less o.price b.asks c.asks_sorted (depth_pos false id o b c e side q))
]

-- In a consistent book each best quantity is all that rests on its side at its best price.
pub best_quantities :
    (b : OrderBook)
    → IsConsistent b
    → (get_best_bid_qty b ≡ total (resting true (get_best_bid_price b)) b.orders)
      × (get_best_ask_qty b ≡ total (resting false (get_best_ask_price b)) b.orders)
unfolding get_best_bid_price get_best_bid_qty get_best_ask_price get_best_ask_qty
best_quantities b c = (
  first_quantity_lem b.bids ∙ c.depths true (first_price b.bids),
  first_quantity_lem b.asks ∙ c.depths false (first_price b.asks),
)

non_empty : (p : ℤ) (m : LevelMap) → 0 < quantity_of (find p m) → is_empty m ≡ false
unfolding find is_empty
non_empty p [] h = absurd (omega arith)
non_empty p (l ∷ m) h = refl

-- If `is_crossed` answers false of a consistent book, every resting buy order with a quantity is
-- priced below every resting order of the other side with a quantity.
pub uncrossed :
    (b : OrderBook) (i j : ℕ) (bid ask : OrderInfo)
    → IsConsistent b
    → is_crossed b ≡ false
    → lookup i b.orders ≡ some bid
    → is_buy bid.side ≡ true
    → 0 < bid.quantity
    → lookup j b.orders ≡ some ask
    → is_buy ask.side ≡ false
    → 0 < ask.quantity
    → ltb_ℤ bid.price ask.price ≡ true
unfolding is_crossed
uncrossed b i j bid ask c e ib sb qb ja sa qa =
    let db = depth_pos true i bid b c ib sb qb in
    let da = depth_pos false j ask b c ja sa qa in
    ground (
      arith,
      first-NoWorse greater bid.price b.bids c.bids_sorted db,
      first-NoWorse less ask.price b.asks c.asks_sorted da,
      non_empty bid.price b.bids db,
      non_empty ask.price b.asks da,
    )

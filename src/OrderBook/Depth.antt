-- ===== src/OrderBook/Depth.antt =====
-- The quantity that a book shows at a price, and how the two routines of orderbook.cpp that edit
-- the price levels change it.
use hftalgorithms.Base.{
  ℕ, ◌+◌, ◌-◌, ◌%◌, ◌<◌, ◌≡◌, ap, Bool, true, false, ◌&&◌, not, arith, inl, inr, ltb, ◌==◌,
  if◌then◌else◌, Option-cases, if_keeps,
}
use hftalgorithms.Base.Int.{ℤ, eqb_ℤ, add_u32, sub_u32, u32_mod, eq_of_parts}
use hftalgorithms.Base.Dict.{Dict, total}
use hftalgorithms.Messages.{Side, is_buy}
use hftalgorithms.OrderBook.{
  OrderInfo, OrderBook, remove_level, add_to_price_level, remove_from_price_level,
}
use hftalgorithms.OrderBook.Levels.{
  LevelMap, Compare, greater, less, find, assign, quantity_of, find-put, find-assign, find-erase,
  IsSorted, assign-IsSorted, erase-IsSorted,
}

-- The levels of a side: `true` is the bids.
abbrev pub levels : Bool → OrderBook → LevelMap
levels true b = b.bids
levels false b = b.asks

-- What the book shows on side `s` at price `p`.
abbrev pub depth : Bool → ℤ → OrderBook → ℕ
depth s p b = quantity_of (find p (levels s b))

-- An order's side and price are `s` and `p`. A side that is no enumerator counts as an ask.
abbrev pub matches : Bool → ℤ → Side → ℤ → Bool
matches s p side price = (if s then is_buy side else not (is_buy side)) && eqb_ℤ price p

-- The part of an order that rests on side `s` at price `p`.
abbrev pub resting : Bool → ℤ → OrderInfo → ℕ
resting s p o = if matches s p o.side o.price then o.quantity else 0

-- The quantity of all resting orders.
abbrev pub volume : Dict OrderInfo → ℕ
volume = total λ o. o.quantity

find_same : (p r : ℤ) (m : LevelMap) → eqb_ℤ p r ≡ true → find p m ≡ find r m
find_same p r m e = ap (λ k. find k m) (eq_of_parts p r (ground arith))

pub depth-remove_level :
    (r p : ℤ) (q : ℕ) (m : LevelMap)
    → quantity_of (find p m) < u32_mod
    → quantity_of (find r (remove_level p q m))
      ≡ (if eqb_ℤ p r then quantity_of (find p m) - q else quantity_of (find r m))
unfolding remove_level sub_u32
depth-remove_level r p q m h = elim (Option-cases (find p m)) [
  | inl e ↦ ground (arith, find-erase p r m, find_same p r m)
  | inr (held, e) ↦ ground (
    arith,
    find_same p r m,
    find-erase p r m,
    find-assign p r (sub_u32 held q) m,
    find-erase p r (assign p (sub_u32 held q) m),
  )
]

pub remove_level-IsSorted :
    (c : Compare) (p : ℤ) (q : ℕ) (m : LevelMap) → IsSorted c m → IsSorted c (remove_level p q m)
unfolding remove_level
remove_level-IsSorted c p q m h = elim (Option-cases (find p m)) [
  | inl e ↦ rw (e, remove_level) h
  | inr (held, e) ↦
      let kept = assign-IsSorted c p (sub_u32 held q) m h in
      rw (e, remove_level)
        (if_keeps (IsSorted c) (ltb held q) (erase-IsSorted c p m h)
          (if_keeps (IsSorted c) (sub_u32 held q == 0) (erase-IsSorted c p _ kept) kept))
]

pub depth-remove :
    (s : Bool) (r : ℤ) (side : Side) (p : ℤ) (q : ℕ) (b : OrderBook)
    → depth (is_buy side) p b < u32_mod
    → depth s r (remove_from_price_level side p q b)
      ≡ (if matches s r side p then depth s r b - q else depth s r b)
unfolding remove_from_price_level
depth-remove true r side p q b h =
    ground (arith, depth-remove_level r p q b.bids, find_same p r b.bids)
depth-remove false r side p q b h =
    ground (arith, depth-remove_level r p q b.asks, find_same p r b.asks)

pub depth-add :
    (s : Bool) (r : ℤ) (side : Side) (p : ℤ) (q : ℕ) (b : OrderBook)
    → depth s r (add_to_price_level side p q b)
      ≡ (if matches s r side p then (depth s r b + q) % u32_mod else depth s r b)
unfolding add_to_price_level add_u32
depth-add true r side p q b = ground (
  arith,
  find_same p r b.bids,
  find-put greater p r (add_u32 (quantity_of (find p b.bids)) q) b.bids,
)
depth-add false r side p q b = ground (
  arith,
  find_same p r b.asks,
  find-put less p r (add_u32 (quantity_of (find p b.asks)) q) b.asks,
)

-- The same for a whole order.
pub depth-remove_order :
    (s : Bool) (r : ℤ) (o : OrderInfo) (b : OrderBook)
    → depth (is_buy o.side) o.price b < u32_mod
    → depth s r (remove_from_price_level o.side o.price o.quantity b) ≡ depth s r b - resting s r o
depth-remove_order s r o b h = ground (arith, depth-remove s r o.side o.price o.quantity b h)

pub depth-add_order :
    (s : Bool) (r : ℤ) (o : OrderInfo) (b : OrderBook)
    → depth s r b < u32_mod
    → depth s r (add_to_price_level o.side o.price o.quantity b)
      ≡ (depth s r b + resting s r o) % u32_mod
depth-add_order s r o b h = ground (arith, depth-add s r o.side o.price o.quantity b)

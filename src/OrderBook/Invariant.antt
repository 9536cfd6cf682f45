-- ===== src/OrderBook/Invariant.antt =====
-- The book's invariant, kept by every handler of orderbook.cpp: the price levels are an exact
-- summary of the resting orders.
use hftalgorithms.Base.{
  ℕ, ◌+◌, ◌≤◌, ◌<◌, ◌≡◌, refl, ap, Bool, true, false, none, some, [], ◌∷◌, arith,
}
use hftalgorithms.Base.Int.{ℤ, add_u32, sub_u32, u32_mod}
use hftalgorithms.Base.Dict.{
  Dict, total, IsUnique, lookup, insert, erase, measured, insert-IsUnique, erase-IsUnique,
  total-insert, total-erase,
}
use hftalgorithms.Messages.{Side, is_buy}
use hftalgorithms.OrderBook.{OrderInfo, OrderBook, remove_from_price_level, add_to_price_level}
use hftalgorithms.OrderBook.Levels.{greater, less, IsSorted, put-IsSorted}
use hftalgorithms.OrderBook.Depth.{
  depth, resting, volume, depth-remove, depth-add, depth-remove_order, depth-add_order,
  remove_level-IsSorted,
}

-- The levels are sorted, no order id stands twice, what the book shows at a price is what rests
-- there, and all resting quantity together fits a uint32_t.
pub record IsConsistent (b : OrderBook) : Type 0 where
  pub unique : IsUnique b.orders
  pub bids_sorted : IsSorted greater b.bids
  pub asks_sorted : IsSorted less b.asks
  pub depths : (s : Bool) (p : ℤ) → depth s p b ≡ total (resting s p) b.orders
  pub fits : volume b.orders < u32_mod

total-resting-le : (s : Bool) (p : ℤ) (d : Dict OrderInfo) → total (resting s p) d ≤ volume d
unfolding total
total-resting-le s p [] = omega arith
total-resting-le s p ((k, o) ∷ d) = ground (arith, total-resting-le s p d)

pub depth-le-volume :
    {b : OrderBook} (s : Bool) (p : ℤ) → IsConsistent b → depth s p b ≤ volume b.orders
depth-le-volume {b} s p c = omega (arith, c.depths s p, total-resting-le s p b.orders)

depth-lt : {b : OrderBook} (s : Bool) (p : ℤ) → IsConsistent b → depth s p b < u32_mod
depth-lt {b} s p c = omega (arith, c.depths s p, total-resting-le s p b.orders, c.fits)

pub quantity-lt :
    (id : ℕ) (info : OrderInfo) {b : OrderBook}
    → lookup id b.orders ≡ some info
    → IsConsistent b
    → info.quantity < u32_mod
quantity-lt id info {b} e c =
    ground (arith, total-erase (λ o. o.quantity) id b.orders c.unique, c.fits)

remove-IsSorted :
    (side : Side) (p : ℤ) (q : ℕ) (b : OrderBook)
    → IsSorted greater b.bids
    → IsSorted less b.asks
    → let b' = remove_from_price_level side p q b in
      IsSorted greater b'.bids × IsSorted less b'.asks
unfolding remove_from_price_level
remove-IsSorted side p q b hb ha =
    ground
      (arith, remove_level-IsSorted greater p q b.bids hb, remove_level-IsSorted less p q b.asks ha)

add-IsSorted :
    (side : Side) (p : ℤ) (q : ℕ) (b : OrderBook)
    → IsSorted greater b.bids
    → IsSorted less b.asks
    → let b' = add_to_price_level side p q b in IsSorted greater b'.bids × IsSorted less b'.asks
unfolding add_to_price_level
add-IsSorted side p q b hb ha = ground (
  arith,
  put-IsSorted greater p (add_u32 (depth true p b) q) b.bids hb,
  put-IsSorted less p (add_u32 (depth false p b) q) b.asks ha,
)

pub remove-orders :
    (side : Side) (p : ℤ) (q : ℕ) (b : OrderBook)
    → (remove_from_price_level side p q b).orders ≡ b.orders
unfolding remove_from_price_level
remove-orders side p q b = ground arith

pub add-orders :
    (side : Side) (p : ℤ) (q : ℕ) (b : OrderBook)
    → (add_to_price_level side p q b).orders ≡ b.orders
unfolding add_to_price_level
add-orders side p q b = ground arith

depth-record :
    (s : Bool) (p : ℤ) (b : OrderBook) (d : Dict OrderInfo) (n : ℕ)
    → depth s p (record b { orders = d; last_seq_num = n }) ≡ depth s p b
depth-record true p b d n = refl
depth-record false p b d n = refl

-- Taking an order off its level and out of the map.
pub remove-IsConsistent :
    (id n : ℕ) (info : OrderInfo) {b : OrderBook}
    → lookup id b.orders ≡ some info
    → IsConsistent b
    → let b' = remove_from_price_level info.side info.price info.quantity b in
      IsConsistent (record b' { orders = erase id b.orders; last_seq_num = n })
remove-IsConsistent id n info {b} e c = record {
  unique = erase-IsUnique id b.orders c.unique;
  bids_sorted = sorted.0;
  asks_sorted = sorted.1;
  depths = λ s p. ground (
    arith,
    depth-record s p (remove_from_price_level info.side info.price info.quantity b)
        (erase id b.orders) n,
    depth-remove s p info.side info.price info.quantity b
        (depth-lt (is_buy info.side) info.price c),
    c.depths s p,
    total-erase (resting s p) id b.orders c.unique,
  );
  fits = ground (arith, total-erase (λ o. o.quantity) id b.orders c.unique);
}
  where
    sorted :
        let b' = remove_from_price_level info.side info.price info.quantity b in
        IsSorted greater b'.bids × IsSorted less b'.asks
    sorted = remove-IsSorted info.side info.price info.quantity b c.bids_sorted c.asks_sorted

-- Putting an order into the map and its quantity onto its level, where none had its id.
pub add-IsConsistent :
    (id n : ℕ) (info : OrderInfo) {b : OrderBook}
    → lookup id b.orders ≡ none
    → volume b.orders + info.quantity < u32_mod
    → IsConsistent b
    → let b' = add_to_price_level info.side info.price info.quantity b in
      IsConsistent (record b' { orders = insert id info b.orders; last_seq_num = n })
add-IsConsistent id n info {b} e room c = record {
  unique = insert-IsUnique id info b.orders c.unique;
  bids_sorted = sorted.0;
  asks_sorted = sorted.1;
  depths = λ s p. ground (
    arith,
    depth-record s p (add_to_price_level info.side info.price info.quantity b)
        (insert id info b.orders) n,
    depth-add s p info.side info.price info.quantity b,
    c.depths s p,
    total-insert (resting s p) id info b.orders,
    total-resting-le s p b.orders,
  );
  fits = ground (arith, total-insert (λ o. o.quantity) id info b.orders);
}
  where
    sorted :
        let b' = add_to_price_level info.side info.price info.quantity b in
        IsSorted greater b'.bids × IsSorted less b'.asks
    sorted = add-IsSorted info.side info.price info.quantity b c.bids_sorted c.asks_sorted

-- Lowering the quantity of an order that stays.
pub lower-IsConsistent :
    (id n q : ℕ) (info : OrderInfo) {b : OrderBook}
    → lookup id b.orders ≡ some info
    → q ≤ info.quantity
    → IsConsistent b
    → let b' = remove_from_price_level info.side info.price q b in
      let info' = record info { quantity = sub_u32 info.quantity q } in
      IsConsistent (record b' { orders = insert id info' b.orders; last_seq_num = n })
unfolding sub_u32
lower-IsConsistent id n q info {b} e h c = record {
  unique = insert-IsUnique id info' b.orders c.unique;
  bids_sorted = sorted.0;
  asks_sorted = sorted.1;
  depths = λ s p. ground (
    arith,
    small,
    depth-record s p (remove_from_price_level info.side info.price q b) (insert id info' b.orders)
        n,
    depth-remove s p info.side info.price q b (depth-lt (is_buy info.side) info.price c),
    c.depths s p,
    total-insert (resting s p) id info' b.orders,
  );
  fits = ground (arith, small, total-insert (λ o. o.quantity) id info' b.orders);
}
  where
    info' : OrderInfo
    info' = record info { quantity = sub_u32 info.quantity q }

    small : info.quantity < u32_mod
    small = quantity-lt id info e c

    sorted :
        let b' = remove_from_price_level info.side info.price q b in
        IsSorted greater b'.bids × IsSorted less b'.asks
    sorted = remove-IsSorted info.side info.price q b c.bids_sorted c.asks_sorted

-- The levels do not depend on when the map of orders is written.
pub add-record :
    (side : Side) (p : ℤ) (q : ℕ) (b : OrderBook) (d : Dict OrderInfo)
    → add_to_price_level side p q (record b { orders = d })
      ≡ record (add_to_price_level side p q b) { orders = d }
unfolding add_to_price_level
add-record side p q b d = ground arith

-- Taking an order off its level and putting it back changed.
pub replace-IsConsistent :
    (id n : ℕ) (info info' : OrderInfo) {b : OrderBook}
    → lookup id b.orders ≡ some info
    → volume b.orders + info'.quantity < u32_mod
    → IsConsistent b
    → let b' = remove_from_price_level info.side info.price info.quantity b in
      let b* = add_to_price_level info'.side info'.price info'.quantity b' in
      IsConsistent (record b* { orders = insert id info' b.orders; last_seq_num = n })
replace-IsConsistent id n info info' {b} e room c = record {
  unique = insert-IsUnique id info' b.orders c.unique;
  bids_sorted = sorted.0;
  asks_sorted = sorted.1;
  depths = λ s p. omega (
    arith,
    depth-record s p b* (insert id info' b.orders) n,
    depth-add_order s p info' b',
    depth-remove_order s p info b (depth-lt (is_buy info.side) info.price c),
    c.depths s p,
    looked_up (resting s p),
    looked_up (λ o. o.quantity),
    total-insert (resting s p) id info' b.orders,
    total-erase (resting s p) id b.orders c.unique,
    total-resting-le s p b.orders,
    total-resting-le s p (insert id info' b.orders),
    total-insert (λ o. o.quantity) id info' b.orders,
  );
  fits = omega (arith, total-insert (λ o. o.quantity) id info' b.orders);
}
  where
    b' : OrderBook
    b' = remove_from_price_level info.side info.price info.quantity b

    b* : OrderBook
    b* = add_to_price_level info'.side info'.price info'.quantity b'

    looked_up : (f : OrderInfo → ℕ) → measured f (lookup id b.orders) ≡ f info
    looked_up f = ap (measured f) e

    removed : IsSorted greater b'.bids × IsSorted less b'.asks
    removed = remove-IsSorted info.side info.price info.quantity b c.bids_sorted c.asks_sorted

    sorted : IsSorted greater b*.bids × IsSorted less b*.asks
    sorted = add-IsSorted info'.side info'.price info'.quantity b' removed.0 removed.1

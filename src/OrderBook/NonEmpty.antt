-- ===== src/OrderBook/NonEmpty.antt =====
-- Whether orderbook.cpp leaves a price level with no quantity in a book.
use hftalgorithms.Base.{
  ℕ, ◌+◌, ◌<◌, ◌≡◌, refl, Bool, true, false, [], ◌∷◌, arith, inl, inr, ltb, ◌==◌, if◌then◌else◌,
  Bool-cases, Option-cases, if_keeps, All,
}
use hftalgorithms.Base.Int.{ℤ, eqb_ℤ, add_u32, sub_u32, u32_mod}
use hftalgorithms.Messages.{Side, is_buy}
use hftalgorithms.OrderBook.{OrderBook, remove_level, remove_from_price_level, add_to_price_level}
use hftalgorithms.OrderBook.Levels.{
  LevelMap, Compare, greater, less, before, find, put, assign, erase,
}
use hftalgorithms.OrderBook.Depth.{depth}

abbrev Positive : LevelMap → Type 0
Positive = All λ l. 0 < l.1

-- Every price level has a quantity.
abbrev pub HasNoEmptyLevel : OrderBook → Type 0
HasNoEmptyLevel b = Positive b.bids × Positive b.asks

put-Positive :
    (c : Compare) (p : ℤ) (q : ℕ) (m : LevelMap) → 0 < q → Positive m → Positive (put c p q m)
unfolding put
put-Positive c p q [] h a = (h, tt)
put-Positive c p q ((r, s) ∷ m) h a =
    if_keeps Positive (eqb_ℤ r p) (h, a.1)
      (if_keeps Positive (before c p r) (h, a) (a.0, put-Positive c p q m h a.1))

assign-Positive : (p : ℤ) (q : ℕ) (m : LevelMap) → 0 < q → Positive m → Positive (assign p q m)
unfolding assign
assign-Positive p q [] h a = tt
assign-Positive p q ((r, s) ∷ m) h a =
    let rest = assign-Positive p q m h a.1 in if_keeps Positive (eqb_ℤ r p) (h, rest) (a.0, rest)

-- Erasing a level forgives what was assigned to it before.
erase-assign : (p : ℤ) (q : ℕ) (m : LevelMap) → erase p (assign p q m) ≡ erase p m
unfolding erase assign
erase-assign p q [] = refl
erase-assign p q ((r, s) ∷ m) = ground (arith, erase-assign p q m)

erase-Positive : (p : ℤ) (m : LevelMap) → Positive m → Positive (erase p m)
unfolding erase
erase-Positive p [] a = tt
erase-Positive p ((r, s) ∷ m) a =
    let rest = erase-Positive p m a.1 in if_keeps Positive (eqb_ℤ r p) rest (a.0, rest)

remove_level-Positive : (p : ℤ) (q : ℕ) (m : LevelMap) → Positive m → Positive (remove_level p q m)
unfolding remove_level
remove_level-Positive p q m a = elim (Option-cases (find p m)) [
  | inl e ↦ rw (e, remove_level) a
  | inr (held, e) ↦
      rw (e, remove_level)
        (if_keeps Positive (ltb held q) (erase-Positive p m a) (left (sub_u32 held q)))
]
  where
    left : (n : ℕ) → Positive (if n == 0 then erase p (assign p n m) else assign p n m)
    left n = elim (Bool-cases (n == 0)) [
      | inl z ↦ rw (z, erase-assign) (erase-Positive p m a)
      | inr s ↦ rw s (assign-Positive p n m (ground arith) a)
    ]

pub remove-HasNoEmptyLevel :
    (side : Side) (p : ℤ) (q : ℕ) (b : OrderBook)
    → HasNoEmptyLevel b
    → HasNoEmptyLevel (remove_from_price_level side p q b)
unfolding remove_from_price_level
remove-HasNoEmptyLevel side p q b (hb, ha) =
    if_keeps HasNoEmptyLevel (is_buy side) (remove_level-Positive p q b.bids hb, ha)
      (hb, remove_level-Positive p q b.asks ha)

pub add-HasNoEmptyLevel :
    (side : Side) (p : ℤ) (q : ℕ) (b : OrderBook)
    → 0 < q
    → ((s : Bool) → depth s p b + q < u32_mod)
    → HasNoEmptyLevel b
    → HasNoEmptyLevel (add_to_price_level side p q b)
unfolding add_to_price_level add_u32
add-HasNoEmptyLevel side p q b some_quantity fits (hb, ha) =
    if_keeps HasNoEmptyLevel (is_buy side)
      (put-Positive greater p _ b.bids (ground (arith, fits true)) hb, ha)
      (hb, put-Positive less p _ b.asks (ground (arith, fits false)) ha)

-- ===== src/OrderBook/Levels.antt =====
-- The price levels of orderbook.h: `std::map<int32_t, uint32_t>` as the list of its entries in the
-- order of its comparator, with the laws of its operations.
use hftalgorithms.Base.{
  ℕ, ◌≡◌, refl, Bool, true, Option, none, some, List, [], ◌∷◌, arith, if◌then◌else◌, Bool-cases,
  inl, inr,
}
use hftalgorithms.Base.Int.{ℤ, pos, eqb_ℤ, ltb_ℤ, eq_of_parts}

-- `std::greater` for bids, `std::less` for asks.
pub data Compare : Type 0 where
  greater less : Compare

abbrev pub before : Compare → ℤ → ℤ → Bool
before greater a b = ltb_ℤ b a
before less a b = ltb_ℤ a b

abbrev pub LevelMap : Type 0
LevelMap = List (ℤ × ℕ)

-- `find(p)`
unfoldable pub find : ℤ → LevelMap → Option ℕ
find p [] = none
find p ((r, s) ∷ m) = if eqb_ℤ r p then some s else find p m

-- What `m[p]` reads: a missing key is made with 0.
abbrev pub quantity_of : Option ℕ → ℕ
quantity_of none = 0
quantity_of (some q) = q

-- `m[p] = q`
unfoldable pub put : Compare → ℤ → ℕ → LevelMap → LevelMap
put c p q [] = (p, q) ∷ []
put c p q ((r, s) ∷ m) =
    if eqb_ℤ r p
    then (p, q) ∷ m
    else if before c p r
    then (p, q) ∷ (r, s) ∷ m
    else (r, s) ∷ put c p q m

-- `it->second = q` where `it` is at `p`
unfoldable pub assign : ℤ → ℕ → LevelMap → LevelMap
assign p q [] = []
assign p q ((r, s) ∷ m) = if eqb_ℤ r p then (r, q) ∷ assign p q m else (r, s) ∷ assign p q m

-- `erase(it)` where `it` is at `p`
unfoldable pub erase : ℤ → LevelMap → LevelMap
erase p [] = []
erase p ((r, s) ∷ m) = if eqb_ℤ r p then erase p m else (r, s) ∷ erase p m

-- `begin()->first` and `begin()->second`, or 0 for an empty map
unfoldable pub first_price : LevelMap → ℤ
first_price [] = pos 0
first_price ((p, q) ∷ m) = p

unfoldable pub first_quantity : LevelMap → ℕ
first_quantity [] = 0
first_quantity ((p, q) ∷ m) = q

pub find-put :
    (c : Compare) (p r : ℤ) (q : ℕ) (m : LevelMap)
    → find r (put c p q m) ≡ (if eqb_ℤ p r then some q else find r m)
unfolding find put
find-put c p r q [] = refl
find-put c p r q ((k, s) ∷ m) = ground (arith, find-put c p r q m)

pub find-erase :
    (p r : ℤ) (m : LevelMap) → find r (erase p m) ≡ (if eqb_ℤ p r then none else find r m)
unfolding find erase
find-erase p r [] = ground arith
find-erase p r ((k, s) ∷ m) = ground (arith, find-erase p r m)

pub find-assign :
    (p r : ℤ) (q : ℕ) (m : LevelMap)
    → find r (assign p q m)
      ≡ (if eqb_ℤ p r then elim (find p m) [ none ↦ none | some _ ↦ some q ] else find r m)
unfolding find assign
find-assign p r q [] = ground arith
find-assign p r q ((k, s) ∷ m) = ground (arith, find-assign p r q m)

-- The keys stand in the comparator's order.
abbrev pub Ahead : Compare → ℤ → LevelMap → Type 0
Ahead c p [] = Unit
Ahead c p ((r, s) ∷ m) = before c p r ≡ true

abbrev pub IsSorted : Compare → LevelMap → Type 0
IsSorted c [] = Unit
IsSorted c ((p, q) ∷ m) = Ahead c p m × IsSorted c m

pub put-IsSorted :
    (c : Compare) (p : ℤ) (q : ℕ) (m : LevelMap) → IsSorted c m → IsSorted c (put c p q m)
unfolding put
put-IsSorted c p q [] h = (tt, tt)
put-IsSorted c p q ((r, s) ∷ []) h = ground arith
put-IsSorted c p q ((r, s) ∷ (r', s') ∷ m) h = ground (arith, put-IsSorted c p q ((r', s') ∷ m) h.1)

pub Ahead-trans :
    (c : Compare) (p r : ℤ) (m : LevelMap) → before c p r ≡ true → Ahead c r m → Ahead c p m
Ahead-trans c p r [] h a = tt
Ahead-trans c p r ((k, s) ∷ m) h a = ground arith

pub Ahead-assign :
    (c : Compare) (p r : ℤ) (q : ℕ) (m : LevelMap) → Ahead c p m → Ahead c p (assign r q m)
unfolding assign
Ahead-assign c p r q [] h = tt
Ahead-assign c p r q ((k, s) ∷ m) h = ground arith

pub assign-IsSorted :
    (c : Compare) (p : ℤ) (q : ℕ) (m : LevelMap) → IsSorted c m → IsSorted c (assign p q m)
unfolding assign
assign-IsSorted c p q [] h = tt
assign-IsSorted c p q ((r, s) ∷ m) h = elim (Bool-cases (eqb_ℤ r p)) [
  | inl e ↦ rw e (Ahead-assign c r p q m h.0, assign-IsSorted c p q m h.1)
  | inr e ↦ rw e (Ahead-assign c r p q m h.0, assign-IsSorted c p q m h.1)
]

pub Ahead-erase :
    (c : Compare) (p r : ℤ) (m : LevelMap) → IsSorted c m → Ahead c p m → Ahead c p (erase r m)
unfolding erase
Ahead-erase c p r [] s h = tt
Ahead-erase c p r ((k, q) ∷ m) s h = elim (Bool-cases (eqb_ℤ k r)) [
  | inl e ↦ rw e (Ahead-erase c p r m s.1 (Ahead-trans c p k m h s.0))
  | inr e ↦ rw e h
]

pub erase-IsSorted : (c : Compare) (p : ℤ) (m : LevelMap) → IsSorted c m → IsSorted c (erase p m)
unfolding erase
erase-IsSorted c p [] h = tt
erase-IsSorted c p ((r, s) ∷ m) h = elim (Bool-cases (eqb_ℤ r p)) [
  | inl e ↦ rw e (erase-IsSorted c p m h.1)
  | inr e ↦ rw e (Ahead-erase c r p m h.1 h.0, erase-IsSorted c p m h.1)
]

-- A key that is found stands behind what is ahead of all.
pub find_behind :
    (c : Compare) (p r : ℤ) (m : LevelMap) {q : ℕ}
    → IsSorted c m
    → Ahead c p m
    → find r m ≡ some q
    → before c p r ≡ true
unfolding find
find_behind c p r [] s a e = cc
find_behind c p r ((k, q) ∷ m) s a e = elim (Bool-cases (eqb_ℤ k r)) [
  | inl same ↦ rw (← eq_of_parts k r (ground arith)) a
  | inr other ↦ find_behind c p r m s.1 (Ahead-trans c p k m a s.0) (rw other at e)
]

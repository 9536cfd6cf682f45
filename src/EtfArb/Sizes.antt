-- ===== src/EtfArb/Sizes.antt =====
-- The quantities that etf_arb.cpp trades, against the bounds that they are taken from.
use hftalgorithms.Base.{ℕ, ◌<◌, ◌≡◌, List, [], ◌∷◌, All, arith, ◌↔◌}
use hftalgorithms.Base.Int.{
  ℤ, pos, negsuc, ◌+ℤ◌, ◌-ℤ◌, ◌≤ℤ◌, min_ℤ, i32_of, wrap32, pos_part, neg_part, wrap32-eq_of_IsI32,
  +ℤ_parts, -ℤ_parts,
}
use hftalgorithms.Symbols.{position_limit}
use hftalgorithms.Symbols.Nav.{ArbSnapshot, DormData}
use hftalgorithms.EtfArb.Trades.{creation_bounds, creation_qty, redemption_bounds, redemption_qty}

-- A position below 2 ^ 30 either way, and quantities below 2 ^ 31.
abbrev pub IsModest : DormData → Type 0
IsModest x =
    (pos_part x.position < 0x4000_0000)
    × (neg_part x.position < 0x4000_0000)
    × (x.best_bid_qty < 0x8000_0000)
    × (x.best_ask_qty < 0x8000_0000)

-- A number of lots of a dorm that can be bought at its best ask within the limit, and sold at its
-- best bid.
abbrev pub IsBuyable : ℤ → DormData → Type 0
IsBuyable q x = (q ≤ℤ pos x.best_ask_qty) × (q +ℤ x.position ≤ℤ position_limit)

abbrev pub IsSellable : ℤ → DormData → Type 0
IsSellable q x = (q ≤ℤ pos x.best_bid_qty) × (negsuc 8 ≤ℤ x.position -ℤ q)

below_min : (q a b : ℤ) → (q ≤ℤ min_ℤ a b) ↔ ((q ≤ℤ a) × (q ≤ℤ b))
below_min q a b = ground arith

i32_of_small : (n : ℕ) → n < 0x8000_0000 → i32_of n ≡ pos n
unfolding i32_of
i32_of_small n h = ground (arith, h)

-- The sums of a position and the limit do not wrap.
room_left :
    (p : ℤ)
    → pos_part p < 0x4000_0000
    → neg_part p < 0x4000_0000
    → wrap32 (position_limit -ℤ p) ≡ position_limit -ℤ p
room_left p h k = wrap32-eq_of_IsI32 _ (unfold ◌-ℤ◌ in ground (arith, h, k))

room_held :
    (p : ℤ)
    → pos_part p < 0x4000_0000
    → neg_part p < 0x4000_0000
    → wrap32 (position_limit +ℤ p) ≡ position_limit +ℤ p
room_held p h k = wrap32-eq_of_IsI32 _ (unfold ◌+ℤ◌ in ground (arith, h, k))

lots : (q : ℤ) (n : ℕ) → n < 0x8000_0000 → (q ≤ℤ i32_of n) ↔ (q ≤ℤ pos n)
lots q n h = rw (i32_of_small n h) (λ k. k, λ k. k)

module _ (q p : ℤ) (h : pos_part p < 0x4000_0000) (k : neg_part p < 0x4000_0000) where
  buy_room : (q ≤ℤ wrap32 (position_limit -ℤ p)) ↔ (q +ℤ p ≤ℤ position_limit)
  buy_room = rw (room_left p h k) (
    λ l. omega (arith, l, -ℤ_parts position_limit p, +ℤ_parts q p),
    λ l. omega (arith, l, -ℤ_parts position_limit p, +ℤ_parts q p),
  )

  sell_room : (q ≤ℤ wrap32 (position_limit +ℤ p)) ↔ (negsuc 8 ≤ℤ p -ℤ q)
  sell_room = rw (room_held p h k) (
    λ l. omega (arith, l, +ℤ_parts position_limit p, -ℤ_parts p q),
    λ l. omega (arith, l, +ℤ_parts position_limit p, -ℤ_parts p q),
  )

-- The least of three numbers, where the last two stand for something else.
below_three :
    {B C : Type 0} (q m b c : ℤ)
    → (q ≤ℤ b) ↔ B
    → (q ≤ℤ c) ↔ C
    → (q ≤ℤ min_ℤ (min_ℤ m b) c) ↔ ((q ≤ℤ m) × (B × C))
below_three q m b c h k =
    let outer = below_min q (min_ℤ m b) c in
    let inner = below_min q m b in
    (
      λ l.
          let (low, third) = outer.0 l in
          let (first, second) = inner.0 low in (first, (h.0 second, k.0 third)),
      λ l. outer.1 (inner.1 (l.0, h.1 l.1.0), k.1 l.1.1),
    )

creation_bounds_iff :
    (q m : ℤ) (xs : List DormData)
    → All IsModest xs
    → (q ≤ℤ creation_bounds xs m) ↔ ((q ≤ℤ m) × All (IsBuyable q) xs)
unfolding creation_bounds
creation_bounds_iff q m [] h = (λ k. (k, tt), λ k. k.0)
creation_bounds_iff q m (x ∷ xs) h =
    let (p, n, bids, asks) = h.0 in
    let step =
      below_three q m (i32_of x.best_ask_qty) (wrap32 (position_limit -ℤ x.position))
        (lots q x.best_ask_qty asks) (buy_room q x.position p n) in
    let rest =
      creation_bounds_iff q
        (min_ℤ (min_ℤ m (i32_of x.best_ask_qty)) (wrap32 (position_limit -ℤ x.position))) xs h.1 in
    (
      λ k. let (low, all) = rest.0 k in let (first, room) = step.0 low in (first, (room, all)),
      λ k. rest.1 (step.1 (k.0, k.1.0), k.1.1),
    )

redemption_bounds_iff :
    (q m : ℤ) (xs : List DormData)
    → All IsModest xs
    → (q ≤ℤ redemption_bounds xs m) ↔ ((q ≤ℤ m) × All (IsSellable q) xs)
unfolding redemption_bounds
redemption_bounds_iff q m [] h = (λ k. (k, tt), λ k. k.0)
redemption_bounds_iff q m (x ∷ xs) h =
    let (p, n, bids, asks) = h.0 in
    let step =
      below_three q m (i32_of x.best_bid_qty) (wrap32 (position_limit +ℤ x.position))
        (lots q x.best_bid_qty bids) (sell_room q x.position p n) in
    let rest =
      redemption_bounds_iff q
        (min_ℤ (min_ℤ m (i32_of x.best_bid_qty)) (wrap32 (position_limit +ℤ x.position))) xs h.1 in
    (
      λ k. let (low, all) = rest.0 k in let (first, room) = step.0 low in (first, (room, all)),
      λ k. rest.1 (step.1 (k.0, k.1.0), k.1.1),
    )

-- `creation_qty` is the greatest number of lots for which every dorm can be bought and the ETF sold:
-- a number is at most it exactly if it is at most the quantity at the best ask of each dorm and at
-- the best bid of the ETF, leaves no dorm above 9 lots and the ETF at -9 or more. The quantities are
-- below 2 ^ 31, and the positions below 2 ^ 30 either way.
pub creation_qty_iff :
    (q : ℤ) (snap : ArbSnapshot)
    → All IsModest (snap.undy ∷ snap.sums.dorms)
    → (q ≤ℤ creation_qty snap) ↔ (IsSellable q snap.undy × All (IsBuyable q) snap.sums.dorms)
unfolding creation_qty
creation_qty_iff q snap h =
    let (p, n, bids, asks) = h.0 in
    let qty = i32_of snap.undy.best_bid_qty in
    let dorms = creation_bounds_iff q qty snap.sums.dorms h.1 in
    let ends =
      below_min q (creation_bounds snap.sums.dorms qty)
        (wrap32 (position_limit +ℤ snap.undy.position)) in
    let amount = lots q snap.undy.best_bid_qty bids in
    let room = sell_room q snap.undy.position p n in
    (
      λ k.
          let (low, last) = ends.0 k in
          let (first, all) = dorms.0 low in ((amount.0 first, room.0 last), all),
      λ k. ends.1 (dorms.1 (amount.1 k.0.0, k.1), room.1 k.0.1),
    )

-- `redemption_qty` is the greatest number of lots for which the ETF can be bought and every dorm
-- sold, in the same sense: at most the quantities at the best ask of the ETF and the best bid of each
-- dorm, the ETF at most at 9 lots and each dorm at -9 or more, under the same bounds.
redemption_qty_iff :
    (q : ℤ) (snap : ArbSnapshot)
    → All IsModest (snap.undy ∷ snap.sums.dorms)
    → (q ≤ℤ redemption_qty snap) ↔ (IsBuyable q snap.undy × All (IsSellable q) snap.sums.dorms)
unfolding redemption_qty
redemption_qty_iff q snap h =
    let (p, n, bids, asks) = h.0 in
    let qty = i32_of snap.undy.best_ask_qty in
    let room = wrap32 (position_limit -ℤ snap.undy.position) in
    let dorms = redemption_bounds_iff q (min_ℤ qty room) snap.sums.dorms h.1 in
    let first = below_min q qty room in
    let amount = lots q snap.undy.best_ask_qty asks in
    let left = buy_room q snap.undy.position p n in
    (
      λ k. let (low, all) = dorms.0 k in let (a, b) = first.0 low in ((amount.0 a, left.0 b), all),
      λ k. dorms.1 (first.1 (amount.1 k.0.0, left.1 k.0.1), k.1),
    )

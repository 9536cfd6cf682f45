-- ===== src/Symbols/Profit.antt =====
-- The profit and loss that `on_fill` of symbol_manager.cpp books, with exact numbers for doubles.
use hftalgorithms.Base.{ℕ, ◌≤◌, ◌<◌, ◌≡◌, refl, true, some, arith}
use hftalgorithms.Base.Int.{ℤ, pos, negsuc, ◌+ℤ◌, ◌-ℤ◌, ltb_ℤ, wrap32, i32_of, neg_part}
use hftalgorithms.Base.Double.{exact, mul_ℤ}
use hftalgorithms.Base.Dict.{lookup, insert}
use hftalgorithms.Messages.{buy}
use hftalgorithms.Symbols.{
  SymbolManager, SymbolSlot, shifted, on_fill, book_profit, realized, averaged,
}

nothing : (total price : ℤ) (n : ℕ) → total +ℤ mul_ℤ (price -ℤ price) (pos n) ≡ total
unfolding ◌+ℤ◌ ◌-ℤ◌
nothing (pos t) (pos a) n = ground arith
nothing (pos t) (negsuc a) n = ground arith
nothing (negsuc t) (pos a) n = ground arith
nothing (negsuc t) (negsuc a) n = ground arith

-- A buy that does not bring the position above zero sets the average entry price to its own.
covered :
    (qty : ℕ) (price z average : ℤ)
    → neg_part z < 0x4000_0000
    → 0 < qty
    → qty ≤ neg_part z
    → averaged z qty price average ≡ price
unfolding averaged wrap32 i32_of ◌+ℤ◌
covered qty price (pos n) average h k l = absurd (omega (arith, k, l))
covered qty price (negsuc n) average h k l = ground (arith, h, k, l)

covers : (z : ℤ) → 0 < neg_part z → ltb_ℤ z (pos 0) ≡ true
covers z h = ground arith

-- A buy that covers part or all of a short position books no profit and no loss, whatever the price
-- at which the position was sold: the average entry price is set to the price of the fill first.
pub cover_books_nothing :
    (id qty : ℕ) (price : ℤ) (m : SymbolManager ℤ) (s : SymbolSlot)
    → lookup id m.slots ≡ some s
    → 0 < qty
    → qty ≤ neg_part s.position
    → neg_part s.position < 0x4000_0000
    → (m' : SymbolManager ℤ) × (on_fill id buy qty price m ≡ some m') × (m'.total_pnl ≡ m.total_pnl)
unfolding on_fill book_profit realized
cover_books_nothing id qty price m s e k l h =
    let s' : SymbolSlot = record s { position = shifted buy (i32_of qty) s.position } in
    let m' = record m { slots = insert id s' m.slots } in
    (
      book_profit id buy qty price s.position m',
      rw (e, on_fill) refl,
      rw (covers s.position (omega (arith, k, l)), covered qty price s.position)
          (nothing m.total_pnl price _),
    )

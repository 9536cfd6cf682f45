-- ===== src/Symbols/Positions.antt =====
-- The positions of symbol_manager.cpp: how a fill moves them, the limit, and the saved file.
use hftalgorithms.Base.{
  ℕ, ◌+◌, ◌<◌, ◌≡◌, refl, Bool, false, some, arith, inl, inr, ltb, if◌then◌else◌, Option-cases, ap,
}
use mathlib.Core.Option.{some-injective, none-ne-some}
use hftalgorithms.Base.Int.{
  ℤ, pos, ◌+ℤ◌, ◌-ℤ◌, ltb_ℤ, abs_i32, wrap32, i32_of, pos_part, neg_part, IsI32,
}
use hftalgorithms.Base.Double.{Double}
use hftalgorithms.Base.Dict.{lookup, insert, lookup_inserted}
use hftalgorithms.Messages.{Side, is_buy}
use hftalgorithms.Symbols.{
  SymbolManager, position_limit, shifted, get_position, would_breach_limit, on_fill, book_profit,
}

-- The integer that the position moves to.
abbrev aimed : Side → ℕ → ℤ → ℤ
aimed side qty z = if is_buy side then z +ℤ pos qty else z -ℤ pos qty

i32_of_small : (qty : ℕ) → qty < 0x8000_0000 → i32_of qty ≡ pos qty
unfolding i32_of
i32_of_small qty h = ground arith

shifted_lem :
    (side : Side) (qty : ℕ) (z : ℤ)
    → IsI32 (aimed side qty z)
    → shifted side (pos qty) z ≡ aimed side qty z
unfolding wrap32 ◌+ℤ◌ ◌-ℤ◌
shifted_lem side qty z h = ground arith

-- Whether the position moved by the quantity is more than nine from zero.
abbrev is_far : ℤ → Bool
is_far z = ltb 9 (pos_part z + neg_part z)

far_lem :
    (z : ℤ)
    → IsI32 z
    → pos_part z + neg_part z < 0x8000_0000
    → ltb_ℤ position_limit (abs_i32 z) ≡ is_far z
unfolding abs_i32
far_lem z h k = ground arith

moved_exact :
    (side : Side) (qty : ℕ) (z : ℤ)
    → is_far z ≡ false
    → qty < 0x4000_0000
    → shifted side (i32_of qty) z ≡ aimed side qty z
unfolding ◌+ℤ◌ ◌-ℤ◌
moved_exact side qty z near small =
    rw (i32_of_small qty (omega arith)) (shifted_lem side qty z (ground arith))

breach_eq :
    (side : Side) (qty : ℕ) (z : ℤ)
    → is_far z ≡ false
    → qty < 0x4000_0000
    → ltb_ℤ position_limit (abs_i32 (shifted side (pos qty) z)) ≡ is_far (aimed side qty z)
unfolding ◌+ℤ◌ ◌-ℤ◌
breach_eq side qty z near small =
    rw (shifted_lem side qty z (ground arith))
      (far_lem (aimed side qty z) (ground arith) (ground arith))

module _ {D : Type 0} ⦃d : Double D⦄ where
  -- While the position is at most nine from zero and the quantity is below 2 ^ 30,
  -- `would_breach_limit` answers true of an order exactly if its fill leaves the position more than
  -- nine from zero, and the fill of an order that it lets pass moves the position by exactly the
  -- quantity filled.
  breach_iff :
      (id qty : ℕ) (side : Side) (price z : ℤ) (m : SymbolManager D)
      → get_position id m ≡ some z
      → is_far z ≡ false
      → qty < 0x4000_0000
      → (m' : SymbolManager D) × (on_fill id side qty price m ≡ some m')
        × (get_position id m' ≡ some (aimed side qty z))
        × (would_breach_limit id side (pos qty) m ≡ some (is_far (aimed side qty z)))
  unfolding on_fill get_position would_breach_limit book_profit
  breach_iff id qty side price z m e near small = elim (Option-cases (lookup id m.slots)) [
    | inl f ↦ absurd (none-ne-some z (rw (f, get_position) at e))
    | inr (s, f) ↦
        let same = some-injective s.position z (rw (f, get_position) at e) in
        let s' = record s { position = shifted side (i32_of qty) s.position } in
        let m' = record m { slots = insert id s' m.slots } in
        (
          book_profit id side qty price s.position m',
          rw (f, on_fill) refl,
          rw (lookup_inserted id s' m.slots, get_position, book_profit)
              (rw same (ap some (moved_exact side qty z near small))),
          rw (f, would_breach_limit, get_position)
              (rw same (ap some (breach_eq side qty z near small))),
        )
  ]

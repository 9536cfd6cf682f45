-- ===== src/Trackers/Position.antt =====
-- position_tracker.h and position_tracker.cpp: the net position of one account.
use hftalgorithms.Base.{ℕ, ◌+◌, ◌≡◌, Bool, arith, if◌then◌else◌}
use hftalgorithms.Base.Int.{
  ℤ, pos, negsuc, pos_part, neg_part, ◌+ℤ◌, ◌-ℤ◌, ltb_ℤ, leb_ℤ, add_u32, sub_u32, u32_of, i32_of,
  abs_i32, IsI32, IsSymmetric,
}
use hftalgorithms.Messages.{Side, buy, is_buy}

pub record PositionTracker : Type 0 where
  pub position : ℤ
  pub max_position : ℤ

-- The constructor.
abbrev pub init : ℤ → PositionTracker
init max_position = record { position = pos 0; max_position = max_position }

-- `position += qty` or `position -= qty`, for an int32_t and a uint32_t: the sum is taken in
-- uint32_t and converted back.
unfoldable pub moved : Side → ℕ → ℤ → ℤ
moved side qty position =
    if is_buy side
    then i32_of (add_u32 (u32_of position) qty)
    else i32_of (sub_u32 (u32_of position) qty)

unfoldable pub on_fill : Side → ℕ → PositionTracker → PositionTracker
on_fill side qty t = record t { position = moved side qty t.position }

unfoldable pub at_limit : PositionTracker → Bool
at_limit t = leb_ℤ t.max_position (abs_i32 t.position)

unfoldable pub would_exceed_limit : Side → ℕ → PositionTracker → Bool
would_exceed_limit side qty t = ltb_ℤ t.max_position (abs_i32 (moved side qty t.position))

-- The position that a fill leads to, as an integer with no bound.
abbrev pub target : Side → ℕ → ℤ → ℤ
target side qty position = if is_buy side then position +ℤ pos qty else position -ℤ pos qty

pub moved-eq-target :
    (side : Side) (qty : ℕ) (position : ℤ)
    → IsI32 position
    → IsI32 (target side qty position)
    → moved side qty position ≡ target side qty position
unfolding moved u32_of i32_of add_u32 sub_u32 ◌+ℤ◌ ◌-ℤ◌
moved-eq-target buy qty (pos n) h k = ground arith
moved-eq-target buy qty (negsuc n) h k = ground arith
moved-eq-target _ qty (pos n) h k = ground arith
moved-eq-target _ qty (negsuc n) h k = ground arith

pub moved-IsI32 : (side : Side) (qty : ℕ) (position : ℤ) → IsI32 (moved side qty position)
unfolding moved i32_of add_u32 sub_u32
moved-IsI32 side qty position = ground arith

-- `std::abs` of a value whose negation fits is its distance from zero.
pub magnitude : (z : ℤ) → IsSymmetric z → abs_i32 z ≡ pos (pos_part z + neg_part z)
unfolding abs_i32
magnitude (pos n) h = ground arith
magnitude (negsuc n) h = ground arith

-- Within the range of int32_t, `would_exceed_limit` answers true exactly when the position after
-- the whole order would lie further from zero than the limit.
pub would_exceed_limit_iff :
    (side : Side) (qty : ℕ) (t : PositionTracker)
    → IsI32 t.position
    → IsSymmetric (target side qty t.position)
    → would_exceed_limit side qty t
      ≡ ltb_ℤ t.max_position
          (pos (pos_part (target side qty t.position) + neg_part (target side qty t.position)))
unfolding would_exceed_limit
would_exceed_limit_iff side qty t h k =
    let z = target side qty t.position in
    rw (moved-eq-target side qty t.position h (omega arith), magnitude z k)

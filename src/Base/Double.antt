-- ===== src/Base/Double.antt =====
-- `double`: its values and operations are a parameter of the model, as an instance argument. What a
-- theorem assumes of rounding is a hypothesis of that theorem. `Exact` interprets the operations
-- that the trackers use by exact integers, as IEEE 754 does while results stay within 2 ^ 53.
use hftalgorithms.Base.{◌+◌, ◌*◌, ◌/◌, Bool}
use hftalgorithms.Base.Int.{ℤ, pos_part, neg_part, sub_ℕ, ◌+ℤ◌, ◌-ℤ◌, ltb_ℤ, leb_ℤ}

pub record Double (D : Type 0) : Type 0 where
  pub of_int : ℤ → D
  pub add : D → D → D
  pub sub : D → D → D
  pub mul : D → D → D
  pub div : D → D → D
  pub lt : D → D → Bool
  pub le : D → D → Bool

abbrev pub mul_ℤ : ℤ → ℤ → ℤ
mul_ℤ a b =
    sub_ℕ (pos_part a * pos_part b + neg_part a * neg_part b)
      (pos_part a * neg_part b + neg_part a * pos_part b)

abbrev div_ℤ : ℤ → ℤ → ℤ
div_ℤ a b =
    sub_ℕ (pos_part a / pos_part b + neg_part a / neg_part b)
      (pos_part a / neg_part b + neg_part a / pos_part b)

-- Exact arithmetic; division is cut to whole numbers.
instance abbrev pub exact : Double ℤ
exact = record {
  of_int = λ z. z;
  add = ◌+ℤ◌;
  sub = ◌-ℤ◌;
  mul = mul_ℤ;
  div = div_ℤ;
  lt = ltb_ℤ;
  le = leb_ℤ;
}

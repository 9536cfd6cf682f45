-- ===== src/Base/Text/Stream.antt =====
-- Reading numbers from a `std::istream`: the value, and the text that is left. `none` is a stream that
-- fails.
use hftalgorithms.Base.{
  ℕ, zero, suc, ◌+◌, ◌-◌, ◌/◌, ◌%◌, ◌<◌, ◌≡◌, refl, ◌∙◌, Bool, true, false, Option, none, some, [],
  ◌∷◌, ◌++◌, arith, ltb, ◌==◌, if◌then◌else◌, Bool-cases, inl, inr,
}
use hftalgorithms.Base.Int.{ℤ, pos, negsuc, IsI32, u32_mod}
use hftalgorithms.Base.Text.{
  Text, is_digit, starts_number, scan, skip_spaces, signed, digits, to_string_ℕ, to_string,
  starts-to_string_ℕ, scan-to_string_ℕ, digits-append,
}

unfoldable pub drop_digits : Text → Text
drop_digits [] = []
drop_digits (c ∷ s) = if is_digit c then drop_digits s else c ∷ s

-- The digits of a uint32_t behind a sign; a minus negates modulo 2 ^ 32.
unfoldable pub unsigned : Bool → Text → Option (ℕ × Text)
unsigned negative s =
    let n = scan 0 s in
    if starts_number s
    then (if ltb 0xffff_ffff n
        then none
        else some ((if negative then (u32_mod - n) % u32_mod else n), drop_digits s))
    else none

unfoldable pub with_rest : Bool → Text → Option (ℤ × Text)
with_rest negative s = elim (signed negative s) [ none ↦ none | some z ↦ some (z, drop_digits s) ]

-- A number of either kind behind its sign, if it has one.
abbrev pub behind_sign : {A : Type 0} → (Bool → Text → Option (A × Text)) → Text → Option (A × Text)
behind_sign f [] = none
behind_sign f (c ∷ s) =
    if c == b'-' then f true s else if c == b'+' then f false s else f false (c ∷ s)

-- `f >> n` for a uint32_t
unfoldable pub extract_u32 : Text → Option (ℕ × Text)
extract_u32 s = behind_sign unsigned (skip_spaces s)

-- `f >> n` for an int32_t
unfoldable pub extract_i32 : Text → Option (ℤ × Text)
extract_i32 s = behind_sign with_rest (skip_spaces s)

drop-digits : (fuel n : ℕ) (out : Text) → drop_digits (digits fuel n out) ≡ drop_digits out
unfolding drop_digits digits
drop-digits zero n out = refl
drop-digits (suc fuel) n out = ground (arith, drop-digits fuel (n / 10) ((b'0' + n % 10) ∷ out))

drop_stops : (rest : Text) → starts_number rest ≡ false → drop_digits rest ≡ rest
unfolding drop_digits
drop_stops [] h = refl
drop_stops (c ∷ rest) h = rw h refl

drop-to_string_ℕ :
    (n : ℕ) (rest : Text) → starts_number rest ≡ false → drop_digits (to_string_ℕ n ++ rest) ≡ rest
unfolding to_string_ℕ
drop-to_string_ℕ n rest stop = elim (Bool-cases (n == 0)) [
  | inl e ↦ rw e (unfold drop_digits in drop_stops rest stop)
  | inr e ↦ rw (e, digits-append 10 n [] rest) (drop-digits 10 n rest ∙ drop_stops rest stop)
]

-- A text that starts with a digit has no sign and no blank before it.
at_digit :
    {A : Type 0} (f : Bool → Text → Option (A × Text)) (s : Text)
    → starts_number s ≡ true
    → behind_sign f (skip_spaces s) ≡ f false s
unfolding skip_spaces
at_digit f [] h = ground (arith, h)
at_digit f (c ∷ s) h = ground (arith, h)

pub extract_u32-to_string_ℕ :
    (n : ℕ) (rest : Text)
    → n < u32_mod
    → starts_number rest ≡ false
    → extract_u32 (to_string_ℕ n ++ rest) ≡ some (n, rest)
unfolding extract_u32 unsigned
extract_u32-to_string_ℕ n rest h stop =
    let small : ltb 0xffff_ffff n ≡ false = ground (arith, h) in
    at_digit unsigned (to_string_ℕ n ++ rest) (starts-to_string_ℕ n rest)
    ∙ rw
        (
          starts-to_string_ℕ n rest,
          scan-to_string_ℕ n rest (omega (arith, h)) stop,
          small,
          drop-to_string_ℕ n rest stop,
        )
        refl

pub extract_i32-to_string :
    (z : ℤ) (rest : Text)
    → IsI32 z
    → starts_number rest ≡ false
    → extract_i32 (to_string z ++ rest) ≡ some (z, rest)
unfolding extract_i32 with_rest signed to_string
extract_i32-to_string (pos n) rest h stop =
    let small : ltb 0x7fff_ffff n ≡ false = ground (arith, h) in
    at_digit with_rest (to_string_ℕ n ++ rest) (starts-to_string_ℕ n rest)
    ∙ rw
        (
          with_rest,
          signed,
          starts-to_string_ℕ n rest,
          scan-to_string_ℕ n rest (omega (arith, h)) stop,
          small,
          drop-to_string_ℕ n rest stop,
        )
        refl
extract_i32-to_string (negsuc n) rest h stop =
    let small : ltb 0x8000_0000 (suc n) ≡ false = ground (arith, h) in
    unfold skip_spaces in
    rw
      (
        with_rest,
        signed,
        starts-to_string_ℕ (suc n) rest,
        scan-to_string_ℕ (suc n) rest (omega (arith, h)) stop,
        small,
        drop-to_string_ℕ (suc n) rest stop,
      )
      (ground arith)

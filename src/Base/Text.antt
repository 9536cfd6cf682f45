-- ===== src/Base/Text.antt =====
-- `std::string` as the list of its bytes, with what the code uses of it: `find`, `substr`,
-- `std::to_string` and `std::stoi`.
pub mod Search
pub mod Stream
use Prim.Native.Char.{code}
use Prim.Native.String.{String}
use hftalgorithms.Base.{
  ℕ, zero, suc, ◌+◌, ◌-◌, ◌*◌, ◌/◌, ◌%◌, ◌≡◌, refl, Bool, true, false, Option, none, some, List, [],
  ◌∷◌, ◌++◌, ◌&&◌, ◌||◌, arith, leb, ltb, ◌==◌, if◌then◌else◌, ◌<◌, Bool-cases, inl, inr, sym, ◌∙◌,
  ap,
}
use hftalgorithms.Base.Int.{ℤ, pos, negsuc, neg_part, sub_ℕ, IsI32}

abbrev pub Text : Type 0
Text = List ℕ

-- The bytes of an ASCII literal.
abbrev pub codes : String → Text
codes String.[] = []
codes (String.◌∷◌ c s) = code c ∷ codes s

-- What is left of a text behind a prefix.
unfoldable pub strip : Text → Text → Option Text
strip [] s = some s
strip (p ∷ ps) [] = none
strip (p ∷ ps) (c ∷ s) = if p == c then strip ps s else none

-- `s.find(p)`, as the text before the first place and the text behind it.
unfoldable pub find : Text → Text → Option (Text × Text)
find p [] = elim (strip p []) [ none ↦ none | some rest ↦ some ([], rest) ]
find p (c ∷ s) = elim (strip p (c ∷ s)) [
  | some rest ↦ some ([], rest)
  | none ↦ elim (find p s) [ none ↦ none | some (before, rest) ↦ some (c ∷ before, rest) ]
]

-- `s.find(p) != npos`
unfoldable pub has : Text → Text → Bool
has p s = elim (find p s) [ none ↦ false | some _ ↦ true ]

-- The digits of a number below 10 ^ 10, least digit first, on fuel.
unfoldable pub digits : ℕ → ℕ → Text → Text
digits zero n out = out
digits (suc fuel) n out =
    let rest = digits fuel (n / 10) ((b'0' + n % 10) ∷ out) in if n == 0 then out else rest

unfoldable pub to_string_ℕ : ℕ → Text
to_string_ℕ n = if n == 0 then b'0' ∷ [] else digits 10 n []

-- `std::to_string` of an int32_t
unfoldable pub to_string : ℤ → Text
to_string (pos n) = to_string_ℕ n
to_string (negsuc n) = b'-' ∷ to_string_ℕ (suc n)

abbrev pub is_digit : ℕ → Bool
is_digit c = leb b'0' c && leb c b'9'

-- The value that the leading digits spell behind `n`.
unfoldable pub scan : ℕ → Text → ℕ
scan n [] = n
scan n (c ∷ s) = if is_digit c then scan (n * 10 + (c - b'0')) s else n

abbrev is_space : ℕ → Bool
is_space c = (c == b' ') || (leb 9 c && leb c 13)

unfoldable pub skip_spaces : Text → Text
skip_spaces [] = []
skip_spaces (c ∷ s) = if is_space c then skip_spaces s else c ∷ s

abbrev pub starts_number : Text → Bool
starts_number [] = false
starts_number (c ∷ s) = is_digit c

-- The value of the digits that a text starts with, and `none` where `stoi` throws: no digit, or a
-- value that is no int32_t.
unfoldable pub signed : Bool → Text → Option ℤ
signed negative s =
    let n = scan 0 s in
    if starts_number s
    then if negative
      then (if ltb 0x8000_0000 n then none else some (sub_ℕ 0 n))
      else (if ltb 0x7fff_ffff n then none else some (pos n))
    else none

unfoldable pub after_spaces : Text → Option ℤ
after_spaces [] = none
after_spaces (c ∷ s) =
    if c == b'-' then signed true s else if c == b'+' then signed false s else signed false (c ∷ s)

-- `std::stoi`
unfoldable pub stoi : Text → Option ℤ
stoi s = after_spaces (skip_spaces s)

abbrev bound : ℕ → ℕ
bound zero = 1
bound (suc n) = 10 * bound n

scan_last : (n : ℕ) (out : Text) → scan (n / 10) ((b'0' + n % 10) ∷ out) ≡ scan n out
unfolding scan
scan_last n out = ground arith

-- Reading the digits of a number, and then what follows them, is reading on behind the number.
scan-digits : (fuel n : ℕ) (out : Text) → n < bound fuel → scan 0 (digits fuel n out) ≡ scan n out
unfolding digits
scan-digits zero n out h = let e : n ≡ 0 = omega (arith, h) in rw e refl
scan-digits (suc fuel) n out h =
    ground (arith, scan_last n out, scan-digits fuel (n / 10) ((b'0' + n % 10) ∷ out))

pub digits-append :
    (fuel n : ℕ) (out rest : Text) → digits fuel n out ++ rest ≡ digits fuel n (out ++ rest)
unfolding digits
digits-append zero n out rest = refl
digits-append (suc fuel) n out rest =
    ground (arith, digits-append fuel (n / 10) ((b'0' + n % 10) ∷ out) rest)

starts_on :
    (fuel n : ℕ) (out : Text) → starts_number out ≡ true → starts_number (digits fuel n out) ≡ true
unfolding digits
starts_on zero n out h = h
starts_on (suc fuel) n out h = ground (arith, starts_on fuel (n / 10) ((b'0' + n % 10) ∷ out))

-- The text of a number starts with a digit and spells the number.
starts_digits : (n : ℕ) (rest : Text) → 0 < n → starts_number (digits 10 n rest) ≡ true
unfolding digits
starts_digits n rest h = ground (arith, starts_on 9 (n / 10) ((b'0' + n % 10) ∷ rest))

scan_stops : (n : ℕ) (rest : Text) → starts_number rest ≡ false → scan n rest ≡ n
unfolding scan
scan_stops n [] h = refl
scan_stops n (c ∷ rest) h = rw h refl

pub starts-to_string_ℕ : (n : ℕ) (rest : Text) → starts_number (to_string_ℕ n ++ rest) ≡ true
unfolding to_string_ℕ
starts-to_string_ℕ n rest = elim (Bool-cases (n == 0)) [
  | inl e ↦ rw e refl
  | inr e ↦ rw (e, digits-append 10 n [] rest) (starts_digits n rest (ground arith))
]

pub scan-to_string_ℕ :
    (n : ℕ) (rest : Text)
    → n < 10_000_000_000
    → starts_number rest ≡ false
    → scan 0 (to_string_ℕ n ++ rest) ≡ n
unfolding to_string_ℕ
scan-to_string_ℕ n rest h stop = elim (Bool-cases (n == 0)) [
  | inl e ↦ rw e (unfold scan in (scan_stops 0 rest stop ∙ ground arith))
  | inr e ↦
      rw (e, digits-append 10 n [] rest)
        (scan-digits 10 n rest (omega (arith, h)) ∙ scan_stops n rest stop)
]

stoi_number : (s : Text) → starts_number s ≡ true → stoi s ≡ signed false s
unfolding stoi skip_spaces after_spaces
stoi_number [] h = cc
stoi_number (c ∷ s) h = ground (arith, h)

-- `stoi` reads an int32_t back from its `to_string`, whatever follows that is no digit.
pub stoi-to_string :
    (z : ℤ) (rest : Text)
    → IsI32 z
    → starts_number rest ≡ false
    → stoi (to_string z ++ rest) ≡ some z
unfolding to_string signed
stoi-to_string (pos n) rest h stop =
    stoi_number (to_string_ℕ n ++ rest) (starts-to_string_ℕ n rest)
    ∙ rw (starts-to_string_ℕ n rest, scan-to_string_ℕ n rest (omega (arith, h)) stop)
        (ground (arith, h))
stoi-to_string (negsuc n) rest h stop =
    unfold stoi in
    unfold skip_spaces in
    unfold after_spaces in
    rw (starts-to_string_ℕ (suc n) rest, scan-to_string_ℕ (suc n) rest (omega (arith, h)) stop)
      (ground (arith, h))

-- ===== src/EtfClient/Base64.antt =====
-- The base64 encoder of etf_client.cpp against the encoding by groups of RFC 4648.
use hftalgorithms.Base.{
  ℕ, ◌+◌, ◌-◌, ◌*◌, ◌/◌, ◌%◌, ◌<◌, ◌≡◌, refl, [], ◌∷◌, ◌++◌, arith, All, length, length-append, ◌∙◌,
}
use mathlib.Core.List.{append_assoc}
use hftalgorithms.Base.Int.{u32_mod}
use hftalgorithms.Base.Text.{Text}
use hftalgorithms.EtfClient.{table, write_out, encode_bytes, finish, base64_encode}

abbrev pub IsByte : ℕ → Type 0
IsByte c = c < 256

-- Three bytes give four characters; one or two at the end give two or three, and then `=`.
abbrev pub by_groups : Text → Text
by_groups [] = []
by_groups (a ∷ []) = table (a / 4) ∷ table (a % 4 * 16) ∷ b'=' ∷ b'=' ∷ []
by_groups (a ∷ b ∷ []) =
    table (a / 4) ∷ table (a % 4 * 16 + b / 16) ∷ table (b % 16 * 4) ∷ b'=' ∷ []
by_groups (a ∷ b ∷ c ∷ s) =
    table (a / 4)
    ∷ table (a % 4 * 16 + b / 16)
    ∷ table (b % 16 * 4 + c / 64)
    ∷ table (c % 64)
    ∷ by_groups s

-- The value after a byte.
abbrev shift_in : ℕ → ℕ → ℕ
shift_in val c = (val * 256 + c) % u32_mod

first_round :
    (out : Text) (val a : ℕ)
    → IsByte a
    → write_out 2 (record { out = out; val = shift_in val a; held = 8 })
      ≡ record { out = out ++ table (a / 4) ∷ []; val = shift_in val a; held = 2 }
unfolding write_out
first_round out val a h = let e : shift_in val a / 4 % 64 ≡ a / 4 = omega (arith, h) in rw e refl

second_round :
    (out : Text) (val a b : ℕ)
    → IsByte a
    → IsByte b
    → write_out 2 (record { out = out; val = shift_in (shift_in val a) b; held = 10 }) ≡ record {
      out = out ++ table (a % 4 * 16 + b / 16) ∷ [];
      val = shift_in (shift_in val a) b;
      held = 4;
    }
unfolding write_out
second_round out val a b h k =
    let e : shift_in (shift_in val a) b / 16 % 64 ≡ a % 4 * 16 + b / 16 = omega (arith, h, k) in
    rw e refl

third_round :
    (out : Text) (val b c : ℕ)
    → IsByte b
    → IsByte c
    → write_out 2 (record { out = out; val = shift_in (shift_in val b) c; held = 12 }) ≡ record {
      out = (out ++ table (b % 16 * 4 + c / 64) ∷ []) ++ table (c % 64) ∷ [];
      val = shift_in (shift_in val b) c;
      held = 0;
    }
unfolding write_out
third_round out val b c h k =
    let e : shift_in (shift_in val b) c / 64 % 64 ≡ b % 16 * 4 + c / 64 = omega (arith, h, k) in
    let f : shift_in (shift_in val b) c / 1 % 64 ≡ c % 64 = omega (arith, h, k) in rw (e, f) refl

finish_none :
    (out : Text) (val : ℕ)
    → length out % 4 ≡ 0
    → finish (record { out = out; val = val; held = 0 }) ≡ out ++ []
unfolding finish
finish_none out val h = let e : (4 - length out % 4) % 4 ≡ 0 = omega (arith, h) in rw e refl

finish_one :
    (out : Text) (t val a : ℕ)
    → IsByte a
    → length out % 4 ≡ 0
    → finish (record { out = out ++ t ∷ []; val = shift_in val a; held = 2 })
      ≡ out ++ t ∷ table (a % 4 * 16) ∷ b'=' ∷ b'=' ∷ []
unfolding finish
finish_one out t val a k h =
    let v : shift_in val a * 256 % u32_mod / 16 % 64 ≡ a % 4 * 16 = omega (arith, k) in
    let x = table (a % 4 * 16) in
    let e : (4 - length ((out ++ t ∷ []) ++ x ∷ []) % 4) % 4 ≡ 2 =
      omega (arith, h, length-append (out ++ t ∷ []) (x ∷ []), length-append out (t ∷ [])) in
    rw (v, e) (simp append_assoc)

finish_two :
    (out : Text) (t u val b : ℕ)
    → IsByte b
    → length out % 4 ≡ 0
    → finish (record { out = (out ++ t ∷ []) ++ u ∷ []; val = shift_in val b; held = 4 })
      ≡ out ++ t ∷ u ∷ table (b % 16 * 4) ∷ b'=' ∷ []
unfolding finish
finish_two out t u val b k h =
    let v : shift_in val b * 256 % u32_mod / 64 % 64 ≡ b % 16 * 4 = omega (arith, k) in
    let x = table (b % 16 * 4) in
    let e : (4 - length (((out ++ t ∷ []) ++ u ∷ []) ++ x ∷ []) % 4) % 4 ≡ 1 = omega (
      arith,
      h,
      length-append ((out ++ t ∷ []) ++ u ∷ []) (x ∷ []),
      length-append (out ++ t ∷ []) (u ∷ []),
      length-append out (t ∷ []),
    ) in
    rw (v, e) (simp append_assoc)

-- Three rounds write the four characters of their bytes.
encode_three :
    (out : Text) (val a b c : ℕ) (s : Text)
    → IsByte a
    → IsByte b
    → IsByte c
    → encode_bytes (a ∷ b ∷ c ∷ s) (record { out = out; val = val; held = 0 })
      ≡ encode_bytes s (record {
        out =
            out
            ++ table (a / 4)
              ∷ table (a % 4 * 16 + b / 16)
              ∷ table (b % 16 * 4 + c / 64)
              ∷ table (c % 64)
              ∷ [];
        val = shift_in (shift_in (shift_in val a) b) c;
        held = 0;
      })
unfolding encode_bytes
encode_three out val a b c s h k l =
    rw
      (
        first_round out val a h,
        second_round (out ++ table (a / 4) ∷ []) val a b h k,
        third_round ((out ++ table (a / 4) ∷ []) ++ table (a % 4 * 16 + b / 16) ∷ [])
            (shift_in val a) b c k l,
      )
      (simp append_assoc)

encode_groups :
    (s out : Text) (val : ℕ)
    → All IsByte s
    → length out % 4 ≡ 0
    → finish (encode_bytes s (record { out = out; val = val; held = 0 })) ≡ out ++ by_groups s
encode_groups [] out val h whole = unfold encode_bytes in finish_none out val whole
encode_groups (a ∷ []) out val h whole =
    unfold encode_bytes in
    rw (first_round out val a h.0) (finish_one out (table (a / 4)) val a h.0 whole)
encode_groups (a ∷ b ∷ []) out val h whole =
    unfold encode_bytes in
    rw (first_round out val a h.0, second_round (out ++ table (a / 4) ∷ []) val a b h.0 h.1.0)
      (finish_two out (table (a / 4)) (table (a % 4 * 16 + b / 16)) (shift_in val a) b h.1.0 whole)
encode_groups (a ∷ b ∷ c ∷ s) out val h whole =
    let four =
      table (a / 4)
      ∷ table (a % 4 * 16 + b / 16)
      ∷ table (b % 16 * 4 + c / 64)
      ∷ table (c % 64)
      ∷ [] in
    rw (encode_three out val a b c s h.0 h.1.0 h.1.1.0) (
      encode_groups s (out ++ four) (shift_in (shift_in (shift_in val a) b) c) h.1.1.1
        (omega (arith, whole, length-append out four))
      ∙ append_assoc out four (by_groups s))

-- For any text of bytes the encoder, whose accumulator wraps, writes the base64 encoding by groups of
-- three bytes, with its padding.
pub base64_encode-by_groups : (s : Text) → All IsByte s → base64_encode s ≡ by_groups s
unfolding base64_encode
base64_encode-by_groups s h = encode_groups s [] 0 h refl

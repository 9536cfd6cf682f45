-- ===== src/Base/Bytes.antt =====
-- Packed structs as bytes: numbers with their least byte first, as the program's hosts store them,
-- and readers that take a struct's fields from its bytes in their order.
use hftalgorithms.Base.{
  ℕ, zero, suc, ◌+◌, ◌*◌, ◌/◌, ◌%◌, ◌<◌, ◌≡◌, refl, ◌∙◌, ap, Option, none, some, List, [], ◌∷◌,
  ◌++◌, arith, length,
}
use hftalgorithms.Base.Int.{ℤ, pos, negsuc, u32_of, i32_of, wrap32, wrap32-eq_of_IsI32, IsI32}
use mathlib.Core.List.{append_assoc}

abbrev pub Bytes : Type 0
Bytes = List ℕ

-- A number in so many bytes, and the bound that it fits below.
unfoldable pub le : ℕ → ℕ → Bytes
le zero n = []
le (suc w) n = n % 256 ∷ le w (n / 256)

abbrev pub limit : ℕ → ℕ
limit zero = 1
limit (suc w) = 256 * limit w

-- The fields of a packed struct, one behind the other.
abbrev pub packed : List Bytes → Bytes
packed [] = []
packed (field ∷ fields) = field ++ packed fields

-- What a struct's bytes read as, and the bytes behind it; `none` where they are not all there.
abbrev pub Reader : Type 0 → Type 0
Reader A = Bytes → Option (A × Bytes)

unfoldable pub read_le : ℕ → Reader ℕ
read_le zero s = some (0, s)
read_le (suc w) [] = none
read_le (suc w) (b ∷ s) = elim (read_le w s) [
  | none ↦ none
  | some (n, rest) ↦ some (b + n * 256, rest)
]

infixl 5 ◌>>=◌
abbrev pub ◌>>=◌ : {A B : Type 0} → Reader A → (A → Reader B) → Reader B
◌>>=◌ m f s = elim (m s) [ none ↦ none | some (a, rest) ↦ f a rest ]

abbrev pub pure : {A : Type 0} → A → Reader A
pure a s = some (a, s)

-- An int32_t.
pub read_i32 : Reader ℤ
read_i32 = do n ← read_le 4; pure (i32_of n)

-- A byte that stands for a value.
unfoldable pub read_as : {A : Type 0} → (ℕ → A) → Reader A
read_as f = do n ← read_le 1; pure (f n)

-- Behind whatever stands next, the reader takes these bytes for this value.
pub record Reads {A : Type 0} (m : Reader A) (bytes : Bytes) (a : A) : Type 0 where
  pub reads : (s : Bytes) → m (bytes ++ s) ≡ some (a, s)

pub pure-Reads : {A : Type 0} (a : A) → Reads (pure a) [] a
pure-Reads a = record { reads = λ s. refl }

pub >>=-Reads :
    {A B : Type 0} {m : Reader A} {xs ys : Bytes} {a : A} {b : B} (f : A → Reader B)
    → Reads m xs a
    → Reads (f a) ys b
    → Reads (m >>= f) (xs ++ ys) b
>>=-Reads {xs = xs} {ys = ys} f h k = record {
  reads = λ s. rw (append_assoc xs ys s, ◌>>=◌, h.reads (ys ++ s)) (k.reads s);
}

-- The first field of a struct.
pub Reads-first :
    {A : Type 0} {m : Reader A} {xs : Bytes} {a : A} (ys s : Bytes)
    → Reads m xs a
    → (rest : Bytes) × (m ((xs ++ ys) ++ s) ≡ some (a, rest))
Reads-first {m = m} {xs = xs} {a = a} ys s h =
    (ys ++ s, ap m (append_assoc xs ys s) ∙ h.reads (ys ++ s))

pub map-Reads :
    {A B : Type 0} {m : Reader A} {xs : Bytes} {a : A} (g : A → B)
    → Reads m xs a
    → Reads (m >>= λ x. pure (g x)) xs (g a)
map-Reads g h = record { reads = λ s. rw (◌>>=◌, h.reads s) refl }

read_le-le : (w n : ℕ) (s : Bytes) → n < limit w → read_le w (le w n ++ s) ≡ some (n, s)
unfolding read_le le
read_le-le zero n s h = ground arith
read_le-le (suc w) n s h = rw (read_le-le w (n / 256) s (omega (arith, h))) (ground arith)

u32_of-lt : (z : ℤ) → u32_of z < limit 4
unfolding u32_of
u32_of-lt (pos n) = omega arith
u32_of-lt (negsuc n) = omega arith

i32_of-u32_of : (z : ℤ) → IsI32 z → i32_of (u32_of z) ≡ z
unfolding wrap32
i32_of-u32_of z h = wrap32-eq_of_IsI32 z h

pub read_le-Reads : (w n : ℕ) → n < limit w → Reads (read_le w) (le w n) n
read_le-Reads w n h = record { reads = λ s. read_le-le w n s h }

pub read_as-Reads :
    {A : Type 0} (f : ℕ → A) (n : ℕ) (a : A) → n < 256 → f n ≡ a → Reads (read_as f) (le 1 n) a
unfolding read_as
read_as-Reads f n a h e = record { reads = λ s. rw (read_as, ◌>>=◌, read_le-le 1 n s h, e) refl }

pub read_i32-Reads : (z : ℤ) → IsI32 z → Reads read_i32 (le 4 (u32_of z)) z
unfolding read_i32
read_i32-Reads z h = record {
  reads =
      λ s. rw (read_i32, ◌>>=◌, read_le-le 4 (u32_of z) s (u32_of-lt z), i32_of-u32_of z h) refl;
}

pub length-le : (w n : ℕ) → length (le w n) ≡ w
unfolding le
length-le zero n = refl
length-le (suc w) n = rw (length-le w (n / 256)) refl

-- ===== src/Base/Text/Search.antt =====
-- The search for a text in texts that keep clear of its first byte.
use hftalgorithms.Base.{
  ℕ, zero, suc, ◌≡◌, refl, Bool, true, false, if◌then◌else◌, sym, ◌∙◌, none, some, [], ◌∷◌, ◌++◌,
  ◌==◌, ◌||◌, ◌+◌, ◌/◌, ◌%◌, All, arith, length, ◌≤◌, Option-cases, ap, Bool-cases, inl, inr,
}
use mathlib.Core.Bool.{true≢false}
use mathlib.Core.Option.{none-ne-some, some-injective}
use hftalgorithms.Base.Int.{ℤ, pos, negsuc}
use hftalgorithms.Base.Text.{Text, strip, find, digits, to_string_ℕ, to_string, is_digit}

-- A byte that is nowhere in a text.
abbrev pub Lacks : ℕ → Text → Type 0
Lacks q s = All (λ c. (q == c) ≡ false) s

abbrev pub lacks : ℕ → Text → Bool
lacks q [] = true
lacks q (c ∷ s) = if q == c then false else lacks q s

pub lacks-Lacks : (q : ℕ) (s : Text) → lacks q s ≡ true → Lacks q s
lacks-Lacks q [] h = tt
lacks-Lacks q (c ∷ s) h = elim (Bool-cases (q == c)) [
  | inl e ↦ absurd (true≢false (sym h ∙ rw e refl))
  | inr e ↦ (e, lacks-Lacks q s (ground (arith, h, e)))
]

-- A search skips a text that lacks the first byte of what it looks for.
pub find-skip :
    (q : ℕ) (ps m s before rest : Text)
    → Lacks q m
    → find (q ∷ ps) s ≡ some (before, rest)
    → find (q ∷ ps) (m ++ s) ≡ some (m ++ before, rest)
unfolding find strip
find-skip q ps [] s before rest h e = e
find-skip q ps (c ∷ m) s before rest h e =
    rw (h.0, find-skip q ps m s before rest h.1 e, find, strip) refl

pub find-skip_none :
    (q : ℕ) (ps m s : Text) → Lacks q m → find (q ∷ ps) s ≡ none → find (q ∷ ps) (m ++ s) ≡ none
unfolding find strip
find-skip_none q ps [] s h e = e
find-skip_none q ps (c ∷ m) s h e = rw (h.0, find-skip_none q ps m s h.1 e, find, strip) refl

-- A quoted text is not one whose closing quote something else follows.
pub strip-quoted :
    (q : ℕ) (p m r s : Text)
    → Lacks q p
    → Lacks q m
    → strip r s ≡ none
    → strip (p ++ q ∷ r) (m ++ q ∷ s) ≡ none
unfolding strip
strip-quoted q [] [] r s h k e = ground (arith, e)
strip-quoted q [] (c ∷ m) r s h k e = rw k.0 refl
strip-quoted q (x ∷ p) [] r s h k e = ground (arith, h.0)
strip-quoted q (x ∷ p) (c ∷ m) r s h k e = ground (arith, strip-quoted q p m r s h.1 k.1 e)

digits-Lacks :
    (q fuel n : ℕ) (out : Text) → is_digit q ≡ false → Lacks q out → Lacks q (digits fuel n out)
unfolding digits
digits-Lacks q zero n out h k = k
digits-Lacks q (suc fuel) n out h k =
    let rest = digits-Lacks q fuel (n / 10) ((b'0' + n % 10) ∷ out) h (ground (arith, h), k) in
    elim (Bool-cases (n == 0)) [ inl e ↦ rw e k | inr e ↦ rw e rest ]

to_string_ℕ-Lacks : (q n : ℕ) → is_digit q ≡ false → Lacks q (to_string_ℕ n)
unfolding to_string_ℕ
to_string_ℕ-Lacks q n h = elim (Bool-cases (n == 0)) [
  | inl e ↦ rw e (ground (arith, h), tt)
  | inr e ↦ rw e (digits-Lacks q 10 n [] h tt)
]

-- The text of a number has no byte but digits and the sign.
pub to_string-Lacks : (q : ℕ) (z : ℤ) → ((q == b'-') || is_digit q) ≡ false → Lacks q (to_string z)
unfolding to_string
to_string-Lacks q (pos n) h = to_string_ℕ-Lacks q n (ground (arith, h))
to_string-Lacks q (negsuc n) h =
    (ground (arith, h), to_string_ℕ-Lacks q (suc n) (ground (arith, h)))

pub append-Lacks : (q : ℕ) (s t : Text) → Lacks q s → Lacks q t → Lacks q (s ++ t)
append-Lacks q [] t h k = k
append-Lacks q (c ∷ s) t h k = (h.0, append-Lacks q s t h.1 k)

strip-shorter : (p s rest : Text) → strip p s ≡ some rest → length rest + length p ≡ length s
unfolding strip
strip-shorter [] s rest e = rw (some-injective s rest e) (ground arith)
strip-shorter (x ∷ p) [] rest e = absurd (none-ne-some rest e)
strip-shorter (x ∷ p) (c ∷ s) rest e = elim (Bool-cases (x == c)) [
  | inl same ↦ ground (arith, strip-shorter p s rest (rw (same, strip) at e))
  | inr other ↦ absurd (none-ne-some rest (rw (other, strip) at e))
]

-- What a search leaves, with what it looked for, is no longer than the text.
pub find-shorter :
    (p s before rest : Text) → find p s ≡ some (before, rest) → length rest + length p ≤ length s
unfolding find
find-shorter p [] before rest e = elim (Option-cases (strip p [])) [
  | inl none_e ↦ absurd (none-ne-some (before, rest) (rw (none_e, find) at e))
  | inr (r, found) ↦
      let same = some-injective ([], r) (before, rest) (rw (found, find) at e) in
      omega (arith, strip-shorter p [] rest (found ∙ ap (λ x. some x.1) same))
]
find-shorter p (c ∷ s) before rest e = elim (Option-cases (strip p (c ∷ s))) [
  | inr (r, found) ↦
      let same = some-injective ([], r) (before, rest) (rw (found, find) at e) in
      omega (arith, strip-shorter p (c ∷ s) rest (found ∙ ap (λ x. some x.1) same))
  | inl none_e ↦ elim (Option-cases (find p s)) [
    | inl none_f ↦ absurd (none-ne-some (before, rest) (rw (none_e, none_f, find) at e))
    | inr ((b, r), found) ↦
        let same = some-injective (c ∷ b, r) (before, rest) (rw (none_e, found, find) at e) in
        omega (arith, find-shorter p s b rest (found ∙ ap (λ x. some (b, x.1)) same))
  ]
]

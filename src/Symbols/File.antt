-- ===== src/Symbols/File.antt =====
-- positions.txt of symbol_manager.cpp: the text that `save_positions` writes and `load_positions`
-- reads.
use hftalgorithms.Base.{
  ℕ, zero, suc, ◌≡◌, ◌≤◌, ◌<◌, refl, ap, ◌∙◌, Option, none, some, List, [], ◌∷◌, ◌++◌, map, All,
  arith, length, length-append,
}
use mathlib.Core.List.{append_assoc}
use hftalgorithms.Base.Int.{ℤ, IsI32, u32_mod}
use hftalgorithms.Base.Prefixes.{concat}
use hftalgorithms.Base.Text.{Text, codes, to_string_ℕ, to_string, skip_spaces}
use hftalgorithms.Base.Text.Stream.{
  extract_u32, extract_i32, extract_u32-to_string_ℕ, extract_i32-to_string,
}
use hftalgorithms.Symbols.{SymbolManager, ids, saved_lines, store_positions}

-- `f << id << " " << pos << "\n"`
abbrev pub line_of : ℕ × ℤ → Text
line_of (id, position) = to_string_ℕ id ++ (codes " " ++ (to_string position ++ codes "\n"))

abbrev pub written : List (ℕ × ℤ) → Text
written lines = concat (map line_of lines)

-- The reads of the loop of `load_positions`, on fuel.
unfoldable pub read_lines : ℕ → Text → List (ℕ × ℤ)
read_lines zero f = []
read_lines (suc fuel) f = elim (extract_u32 f) [
  | none ↦ []
  | some (id, f1) ↦ elim (extract_i32 f1) [
    | none ↦ []
    | some (position, f2) ↦ (id, position) ∷ read_lines fuel f2
  ]
]

-- A round reads at least one byte, so the length of the file is enough fuel.
abbrev pub entries_in : Text → List (ℕ × ℤ)
entries_in f = read_lines (length f) f

module _ {D : Type 0} where
  -- What is written to the file.
  unfoldable pub save_positions : SymbolManager D → Option Text
  save_positions m = elim (saved_lines ids m) [ none ↦ none | some lines ↦ some (written lines) ]

  -- On what the file has; one that cannot be opened is as an empty one.
  unfoldable pub load_positions : Text → SymbolManager D → Option (SymbolManager D)
  load_positions file = store_positions (entries_in file)

-- The numbers are a uint32_t and an int32_t.
abbrev pub IsLine : ℕ × ℤ → Type 0
IsLine (id, position) = (id < u32_mod) × IsI32 position

-- A new line before a number is skipped.
read_after_line : (fuel : ℕ) (f : Text) → read_lines fuel (b'\n' ∷ f) ≡ read_lines fuel f
unfolding read_lines extract_u32 skip_spaces
read_after_line zero f = refl
read_after_line (suc fuel) f = refl

read_line :
    (fuel id : ℕ) (position : ℤ) (rest : Text)
    → IsLine (id, position)
    → read_lines (suc fuel) (line_of (id, position) ++ rest)
      ≡ (id, position) ∷ read_lines fuel (b'\n' ∷ rest)
unfolding read_lines
read_line fuel id position rest h =
    let behind = to_string position ++ (b'\n' ∷ rest) in
    let same : line_of (id, position) ++ rest ≡ to_string_ℕ id ++ (b' ' ∷ behind) =
      append_assoc (to_string_ℕ id) (codes " " ++ (to_string position ++ codes "\n")) rest
      ∙ ap (λ s. to_string_ℕ id ++ (b' ' ∷ s))
          (append_assoc (to_string position) (codes "\n") rest) in
    let blank : extract_i32 (b' ' ∷ behind) ≡ extract_i32 behind =
      unfold extract_i32 in unfold skip_spaces in refl in
    ap (read_lines (suc fuel)) same
    ∙ rw
        (
          read_lines,
          extract_u32-to_string_ℕ id (b' ' ∷ behind) h.0 refl,
          blank,
          extract_i32-to_string position (b'\n' ∷ rest) h.1 refl,
        )
        refl

read_written :
    (fuel : ℕ) (lines : List (ℕ × ℤ))
    → All IsLine lines
    → length lines ≤ fuel
    → read_lines fuel (written lines) ≡ lines
unfolding read_lines
read_written zero [] h k = refl
read_written (suc fuel) [] h k = unfold extract_u32 in unfold skip_spaces in refl
read_written zero (l ∷ lines) h k = ground (arith, k)
read_written (suc fuel) ((id, position) ∷ lines) h k =
    read_line fuel id position (written lines) h.0
    ∙ ap (λ ls. (id, position) ∷ ls)
        (read_after_line fuel (written lines) ∙ read_written fuel lines h.1 (omega (arith, k)))

written_longer : (lines : List (ℕ × ℤ)) → length lines ≤ length (written lines)
written_longer [] = omega arith
written_longer ((id, position) ∷ lines) = omega (
  arith,
  written_longer lines,
  length-append (line_of (id, position)) (written lines),
  length-append (to_string_ℕ id) (codes " " ++ (to_string position ++ codes "\n")),
)

-- The lines written are read back.
pub entries_in-written :
    (lines : List (ℕ × ℤ)) → All IsLine lines → entries_in (written lines) ≡ lines
entries_in-written lines h = read_written (length (written lines)) lines h (written_longer lines)

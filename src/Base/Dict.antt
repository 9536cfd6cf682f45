-- ===== src/Base/Dict.antt =====
-- `std::unordered_map` with an integer key, as an association list. `insert` is `m[k] = v`,
-- `erase` is `m.erase(k)`, `lookup` is `m.find(k)`.
use hftalgorithms.Base.{
  ℕ, ◌+◌, ◌≡◌, refl, Bool, true, false, Option, none, some, List, [], ◌∷◌, arith, ◌==◌,
  if◌then◌else◌, Bool-cases, subst, inl, inr,
}
use mathlib.Core.Option.{some-injective}

abbrev pub Dict {ℓ} : Type ℓ → Type ℓ
Dict V = List (ℕ × V)

module _ {ℓ} {V : Type ℓ} where
  unfoldable pub lookup : ℕ → Dict V → Option V
  lookup k [] = none
  lookup k ((j, v) ∷ d) = if j == k then some v else lookup k d

  unfoldable pub contains : ℕ → Dict V → Bool
  contains k d = elim (lookup k d) [ none ↦ false | some _ ↦ true ]

  unfoldable pub insert : ℕ → V → Dict V → Dict V
  insert k v [] = (k, v) ∷ []
  insert k v ((j, w) ∷ d) = if j == k then (k, v) ∷ d else (j, w) ∷ insert k v d

  unfoldable pub erase : ℕ → Dict V → Dict V
  erase k [] = []
  erase k ((j, w) ∷ d) = if j == k then erase k d else (j, w) ∷ erase k d

  pub lookup-insert :
      (k j : ℕ) (v : V) (d : Dict V)
      → lookup j (insert k v d) ≡ (if k == j then some v else lookup j d)
  unfolding lookup insert
  lookup-insert k j v [] = refl
  lookup-insert k j v ((i, w) ∷ d) = ground (arith, lookup-insert k j v d)

  pub lookup-erase :
      (k j : ℕ) (d : Dict V) → lookup j (erase k d) ≡ (if k == j then none else lookup j d)
  unfolding lookup erase
  lookup-erase k j [] = ground arith
  lookup-erase k j ((i, w) ∷ d) = ground (arith, lookup-erase k j d)

  -- No key stands twice.
  abbrev pub IsUnique : Dict V → Type ℓ
  IsUnique [] = Unit
  IsUnique ((k, v) ∷ d) = (lookup k d ≡ none) × IsUnique d

  pub insert-IsUnique : (k : ℕ) (v : V) (d : Dict V) → IsUnique d → IsUnique (insert k v d)
  unfolding insert lookup
  insert-IsUnique k v [] h = (refl, tt)
  insert-IsUnique k v ((j, w) ∷ d) h =
      ground (arith, insert-IsUnique k v d h.1, lookup-insert k j v d)

  pub erase-IsUnique : (k : ℕ) (d : Dict V) → IsUnique d → IsUnique (erase k d)
  unfolding erase
  erase-IsUnique k [] h = tt
  erase-IsUnique k ((j, w) ∷ d) h = ground (arith, erase-IsUnique k d h.1, lookup-erase k j d)

  -- The sum of a measure of the entries.
  unfoldable pub total : (V → ℕ) → Dict V → ℕ
  total f [] = 0
  total f ((k, v) ∷ d) = f v + total f d

  -- What the measure gives for the entry at `k`, or 0.
  abbrev pub measured : (V → ℕ) → Option V → ℕ
  measured f none = 0
  measured f (some v) = f v

  erase_absent : (k : ℕ) (d : Dict V) → lookup k d ≡ none → erase k d ≡ d
  unfolding lookup erase
  erase_absent k [] h = refl
  erase_absent k ((j, w) ∷ d) h = ground (arith, erase_absent k d)

  pub total-erase :
      (f : V → ℕ) (k : ℕ) (d : Dict V)
      → IsUnique d
      → total f (erase k d) + measured f (lookup k d) ≡ total f d
  unfolding total lookup erase
  total-erase f k [] h = omega arith
  total-erase f k ((j, w) ∷ d) h = ground (arith, total-erase f k d h.1, erase_absent k d)

  pub total-insert :
      (f : V → ℕ) (k : ℕ) (v : V) (d : Dict V)
      → total f (insert k v d) + measured f (lookup k d) ≡ total f d + f v
  unfolding total lookup insert
  total-insert f k v [] = omega arith
  total-insert f k v ((j, w) ∷ d) = ground (arith, total-insert f k v d)

  -- What holds of the new value and of the others holds of every value after an insertion.
  pub insert_keeps {κ} :
      (P : V → Type κ) (k : ℕ) (v : V) (d : Dict V)
      → P v
      → ((j : ℕ) (w : V) → lookup j d ≡ some w → P w)
      → (j : ℕ) (w : V) → lookup j (insert k v d) ≡ some w
      → P w
  insert_keeps P k v d new old j w e = elim (Bool-cases (k == j)) [
    | inl same ↦ subst P (some-injective v w (rw (lookup-insert k j v d, same) at e)) new
    | inr other ↦ old j w (rw (lookup-insert k j v d, other) at e)
  ]

  pub lookup_inserted : (k : ℕ) (v : V) (d : Dict V) → lookup k (insert k v d) ≡ some v
  lookup_inserted k v d = ground (arith, lookup-insert k k v d)

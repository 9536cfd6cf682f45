-- ===== src/EtfClient/Holdings.antt =====
-- `get_positions` of etf_client.cpp: the client's positions, as the ETF service knows them.
pub mod Listed
use hftalgorithms.Base.{
  ℕ, zero, suc, ◌≡◌, ◌≤◌, ◌<◌, refl, Bool, true, false, Option, none, some, List, [], ◌∷◌, ◌++◌,
  ◌&&◌, ◌==◌, if◌then◌else◌, length, arith, All, Option-cases, inl, inr, length-append, sym, ◌∙◌,
  ap,
}
use mathlib.Core.List.{append-nil}
use hftalgorithms.Base.Int.{ℤ, IsI32}
use hftalgorithms.Base.Text.{Text, codes, strip, find, to_string, stoi, stoi-to_string}
use hftalgorithms.Base.Text.Search.{Lacks, find-skip, find-skip_none, to_string-Lacks, find-shorter}
use hftalgorithms.EtfClient.{EtfClient, extract_body, get_request}

abbrev pub same_text : Text → Text → Bool
same_text [] [] = true
same_text [] (c ∷ t) = false
same_text (c ∷ s) [] = false
same_text (c ∷ s) (d ∷ t) = (c == d) && same_text s t

-- `positions[ticker] = value`
unfoldable pub set_position : Text → ℤ → List (Text × ℤ) → List (Text × ℤ)
set_position k v [] = (k, v) ∷ []
set_position k v ((j, w) ∷ m) = if same_text j k then (k, v) ∷ m else (j, w) ∷ set_position k v m

-- The loop of `get_positions` over what is left of the block, on fuel; `none` is an exception that
-- `stoi` throws and nothing catches.
unfoldable pub read_positions : ℕ → Text → List (Text × ℤ) → Option (List (Text × ℤ))
read_positions zero block m = some m
read_positions (suc fuel) block m = elim (find (codes "\"") block) [
  | none ↦ some m
  | some (b1, r1) ↦ elim (find (codes "\"") r1) [
    | none ↦ some m
    | some (ticker, r2) ↦ elim (find (codes ":") r2) [
      | none ↦ some m
      | some (b2, r3) ↦ elim (stoi r3) [
        | none ↦ none
        | some value ↦ elim (find (codes ",") r3) [
          | none ↦ some (set_position ticker value m)
          | some (b3, r4) ↦ read_positions fuel r4 (set_position ticker value m)
        ]
      ]
    ]
  ]
]

-- The text between the braces behind `"positions":`.
unfoldable pub position_block : Text → Option Text
position_block body = elim (find (codes "\"positions\":") body) [
  | none ↦ none
  | some (b1, r1) ↦ elim (find (codes "{") r1) [
    | none ↦ none
    | some (b2, r2) ↦ elim (find (codes "}") r2) [ none ↦ none | some (block, r3) ↦ some block ]
  ]
]

-- A round reads at least one byte of the block, so its length is enough fuel.
unfoldable pub get_positions : (Text → Text) → ℤ → EtfClient → Option (List (Text × ℤ))
get_positions network client_id c =
    let body =
      extract_body (network (get_request (codes "/positions/" ++ to_string client_id) c)) in
    elim (position_block body) [
      | none ↦ some []
      | some block ↦ read_positions (length block) block []
    ]

-- What the loop makes of the entries that the service lists.
abbrev pub entered : List (Text × ℤ) → List (Text × ℤ) → List (Text × ℤ)
entered [] m = m
entered ((ticker, value) ∷ es) m = entered es (set_position ticker value m)

-- The entries as the service prints them.
abbrev pub printed : Text × ℤ → List (Text × ℤ) → Text
printed (ticker, value) [] = codes "\"" ++ (ticker ++ (codes "\":" ++ to_string value))
printed (ticker, value) (e ∷ es) =
    codes "\"" ++ (ticker ++ (codes "\":" ++ (to_string value ++ (codes "," ++ printed e es))))

abbrev pub IsEntry : Text × ℤ → Type 0
IsEntry (ticker, value) = Lacks b'"' ticker × IsI32 value

-- The loop of `get_positions` ends within as many rounds as the block has bytes: with that much fuel
-- or more, the result does not depend on the fuel.
pub read_positions_enough :
    (fuel more : ℕ) (block : Text) (m : List (Text × ℤ))
    → length block ≤ fuel
    → length block ≤ more
    → read_positions fuel block m ≡ read_positions more block m
unfolding read_positions
read_positions_enough zero zero block m h k = refl
read_positions_enough zero (suc more) [] m h k = unfold find in unfold strip in refl
read_positions_enough zero (suc more) (c ∷ block) m h k = ground (arith, h)
read_positions_enough (suc fuel) zero [] m h k = unfold find in unfold strip in refl
read_positions_enough (suc fuel) zero (c ∷ block) m h k = ground (arith, k)
read_positions_enough (suc fuel) (suc more) block m h k =
    elim (Option-cases (find (codes "\"") block)) [
      | inl e1 ↦ rw (e1, read_positions) refl
      | inr ((b1, r1), e1) ↦ elim (Option-cases (find (codes "\"") r1)) [
        | inl e2 ↦ rw (e1, e2, read_positions) refl
        | inr ((ticker, r2), e2) ↦ elim (Option-cases (find (codes ":") r2)) [
          | inl e3 ↦ rw (e1, e2, e3, read_positions) refl
          | inr ((b2, r3), e3) ↦ elim (Option-cases (stoi r3)) [
            | inl e4 ↦ rw (e1, e2, e3, e4, read_positions) refl
            | inr (value, e4) ↦ elim (Option-cases (find (codes ",") r3)) [
              | inl e5 ↦ rw (e1, e2, e3, e4, e5, read_positions) refl
              | inr ((b3, r4), e5) ↦
                  let s1 = find-shorter (codes "\"") block b1 r1 e1 in
                  let s2 = find-shorter (codes "\"") r1 ticker r2 e2 in
                  let s3 = find-shorter (codes ":") r2 b2 r3 e3 in
                  let s4 = find-shorter (codes ",") r3 b3 r4 e5 in
                  rw (e1, e2, e3, e4, e5, read_positions)
                    (read_positions_enough fuel more r4 (set_position ticker value m)
                      (omega (arith, h, s1, s2, s3, s4)) (omega (arith, k, s1, s2, s3, s4)))
            ]
          ]
        ]
      ]
    ]

-- An entry in front of others.
read_entry :
    (fuel : ℕ) (ticker : Text) (value : ℤ) (rest : Text) (m : List (Text × ℤ))
    → IsEntry (ticker, value)
    → read_positions
        (suc fuel)
        (codes "\"" ++ (ticker ++ (codes "\":" ++ (to_string value ++ (codes "," ++ rest)))))
        m
      ≡ read_positions fuel rest (set_position ticker value m)
unfolding read_positions find strip
read_entry fuel ticker value rest m h =
    rw
      (
        find-skip b'"' [] ticker (codes "\":" ++ (to_string value ++ (codes "," ++ rest))) []
            (codes ":" ++ (to_string value ++ (codes "," ++ rest))) h.0 refl,
        stoi-to_string value (codes "," ++ rest) h.1 refl,
        find-skip b',' [] (to_string value) (codes "," ++ rest) [] rest
            (to_string-Lacks b',' value (ground arith)) refl,
        append-nil ticker,
        read_positions,
        find,
        strip,
      )
      refl

read_last :
    (fuel : ℕ) (ticker : Text) (value : ℤ) (m : List (Text × ℤ))
    → IsEntry (ticker, value)
    → read_positions (suc fuel) (printed (ticker, value) []) m ≡ some (set_position ticker value m)
unfolding read_positions find strip
read_last fuel ticker value m h =
    rw
      (
        find-skip b'"' [] ticker (codes "\":" ++ to_string value) [] (codes ":" ++ to_string value)
            h.0 refl,
        ap stoi (sym (append-nil (to_string value))) ∙ stoi-to_string value [] h.1 refl,
        ap (find (codes ",")) (sym (append-nil (to_string value)))
            ∙ find-skip_none b',' [] (to_string value) []
                (to_string-Lacks b',' value (ground arith)) refl,
        append-nil ticker,
        read_positions,
        find,
        strip,
      )
      refl

read_rest :
    (fuel : ℕ) (e : Text × ℤ) (es m : List (Text × ℤ))
    → All IsEntry (e ∷ es)
    → length es < fuel
    → read_positions fuel (printed e es) m ≡ some (entered (e ∷ es) m)
read_rest zero e es m h k = ground (arith, k)
read_rest (suc fuel) (ticker, value) [] m h k = read_last fuel ticker value m h.0
read_rest (suc fuel) (ticker, value) (e ∷ es) m h k =
    read_entry fuel ticker value (printed e es) m h.0
    ∙ read_rest fuel e es (set_position ticker value m) h.1 (omega (arith, k))

printed_longer : (e : Text × ℤ) (es : List (Text × ℤ)) → length es < length (printed e es)
printed_longer (ticker, value) [] = ground arith
printed_longer (ticker, value) (e ∷ es) =
    let rest = codes "," ++ printed e es in
    omega (
      arith,
      printed_longer e es,
      length-append (to_string value) rest,
      length-append ticker (codes "\":" ++ (to_string value ++ rest)),
    )

-- On a block of listed entries the loop enters them all, with the length of the block as its fuel.
pub read_positions-printed :
    (e : Text × ℤ) (es m : List (Text × ℤ))
    → All IsEntry (e ∷ es)
    → read_positions (length (printed e es)) (printed e es) m ≡ some (entered (e ∷ es) m)
read_positions-printed e es m h = read_rest (length (printed e es)) e es m h (printed_longer e es)

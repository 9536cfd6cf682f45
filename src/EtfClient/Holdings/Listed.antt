-- ===== src/EtfClient/Holdings/Listed.antt =====
-- `get_positions` of etf_client.cpp on the answer that its comment shows.
use hftalgorithms.Base.{
  ◌≡◌, refl, true, false, Option, none, some, List, [], ◌∷◌, ◌++◌, if◌then◌else◌, All, arith,
  Bool-cases, Option-cases, inl, inr, ap, ◌∙◌, sym, length, ◌==◌,
}
use mathlib.Core.Bool.{true≢false}
use mathlib.Core.List.{append-nil}
use hftalgorithms.Base.Int.{ℤ}
use hftalgorithms.Base.Text.{Text, codes, find, strip, to_string}
use hftalgorithms.Base.Text.Search.{Lacks, find-skip, append-Lacks, to_string-Lacks}
use hftalgorithms.EtfClient.{EtfClient, extract_body, get_request}
use hftalgorithms.EtfClient.Holdings.{
  same_text, set_position, read_positions, position_block, get_positions, entered, printed, IsEntry,
  read_positions-printed,
}

-- `positions.find(ticker)`
abbrev pub value_at : Text → List (Text × ℤ) → Option ℤ
value_at k [] = none
value_at k ((j, w) ∷ m) = if same_text j k then some w else value_at k m

-- The value of the last entry with a ticker.
abbrev pub last_value : Text → List (Text × ℤ) → Option ℤ
last_value k [] = none
last_value k ((t, v) ∷ es) = elim (last_value k es) [
  | some w ↦ some w
  | none ↦ if same_text t k then some v else none
]

same_text_eq : (s t : Text) → same_text s t ≡ true → s ≡ t
same_text_eq [] [] h = refl
same_text_eq [] (c ∷ t) h = ground (arith, h)
same_text_eq (c ∷ s) [] h = ground (arith, h)
same_text_eq (c ∷ s) (d ∷ t) h = elim (Bool-cases (c == d)) [
  | inl e ↦
      let first : c ≡ d = ground (arith, e) in
      let rest : s ≡ t = same_text_eq s t (ground (arith, h, e)) in
      ap (λ x. x ∷ s) first ∙ ap (λ xs. d ∷ xs) rest
  | inr e ↦ ground (arith, h, e)
]

same_text_refl : (s : Text) → same_text s s ≡ true
same_text_refl [] = refl
same_text_refl (c ∷ s) = ground (arith, same_text_refl s)

same_text_to : (j t k : Text) → same_text j t ≡ true → same_text j k ≡ same_text t k
same_text_to j t k h = ap (λ x. same_text x k) (same_text_eq j t h)

apart : (j t k : Text) → same_text j t ≡ false → same_text j k ≡ true → same_text t k ≡ false
apart j t k h e = elim (Bool-cases (same_text t k)) [
  | inr other ↦ other
  | inl same ↦
      let met : j ≡ t = same_text_eq j k e ∙ sym (same_text_eq t k same) in
      absurd (true≢false (sym (same_text_refl t) ∙ ap (λ x. same_text x t) (sym met) ∙ h))
]

value_at-set_position :
    (k t : Text) (v : ℤ) (m : List (Text × ℤ))
    → value_at k (set_position t v m) ≡ (if same_text t k then some v else value_at k m)
unfolding set_position
value_at-set_position k t v [] = refl
value_at-set_position k t v ((j, w) ∷ m) = elim (Bool-cases (same_text j t)) [
  | inl same ↦ rw (same, same_text_to j t k same) (ground arith)
  | inr other ↦ elim (Bool-cases (same_text j k)) [
    | inl here ↦ rw (other, here, apart j t k other here) refl
    | inr there ↦ rw (other, there) (value_at-set_position k t v m)
  ]
]

value_at-entered :
    (k : Text) (es m : List (Text × ℤ))
    → value_at k (entered es m) ≡ (elim (last_value k es) [ some w ↦ some w | none ↦ value_at k m ])
value_at-entered k [] m = refl
value_at-entered k ((t, v) ∷ es) m =
    value_at-entered k es (set_position t v m) ∙ elim (Option-cases (last_value k es)) [
      | inl e ↦ rw e (value_at-set_position k t v m ∙ ground arith)
      | inr (w, e) ↦ rw e refl
    ]

-- The entries between the braces.
abbrev pub block : List (Text × ℤ) → Text
block [] = []
block (e ∷ es) = printed e es

-- A ticker that the listing can show.
abbrev pub IsTicker : Text × ℤ → Type 0
IsTicker (ticker, value) = Lacks b'}' ticker

printed-Lacks :
    (e : Text × ℤ) (es : List (Text × ℤ)) → All IsTicker (e ∷ es) → Lacks b'}' (printed e es)
printed-Lacks (t, v) [] h =
    (refl, append-Lacks b'}' t _ h.0 (refl, (refl, to_string-Lacks b'}' v refl)))
printed-Lacks (t, v) (e ∷ es) h = (
  refl,
  append-Lacks b'}' t _ h.0 (
    refl,
    (
      refl,
      append-Lacks b'}' (to_string v) _ (to_string-Lacks b'}' v refl)
          (refl, printed-Lacks e es h.1),
    ),
  ),
)

block-Lacks : (es : List (Text × ℤ)) → All IsTicker es → Lacks b'}' (block es)
block-Lacks [] h = tt
block-Lacks (e ∷ es) h = printed-Lacks e es h

-- The JSON text of an answer, as the comment in the code shows it.
abbrev pub holdings : ℤ → List (Text × ℤ) → Text
holdings id es =
    codes "{\"client_id\":"
    ++ (to_string id ++ (codes ",\"positions\":{" ++ (block es ++ codes "}}")))

abbrev pub holdings_response : ℤ → List (Text × ℤ) → Text
holdings_response id es =
    codes "HTTP/1.0 200 OK\r\nContent-Type: application/json\r\n\r\n" ++ holdings id es

body_of-holdings :
    (id : ℤ) (es : List (Text × ℤ)) → extract_body (holdings_response id es) ≡ holdings id es
unfolding extract_body find strip
body_of-holdings id es = refl

block_of-holdings :
    (id : ℤ) (es : List (Text × ℤ))
    → All IsTicker es
    → position_block (holdings id es) ≡ some (block es)
unfolding position_block find strip
block_of-holdings id es h =
    let behind = block es ++ codes "}}" in
    rw
      (
        find-skip b'"' (codes "positions\":") (to_string id) (codes ",\"positions\":{" ++ behind)
            (codes ",") (codes "{" ++ behind) (to_string-Lacks b'"' id refl) refl,
        find-skip b'}' [] (block es) (codes "}}") [] (codes "}") (block-Lacks es h) refl,
        append-nil (block es),
        position_block,
        find,
        strip,
      )
      refl

read_block :
    (es : List (Text × ℤ))
    → All IsEntry es
    → read_positions (length (block es)) (block es) [] ≡ some (entered es [])
unfolding read_positions
read_block [] h = refl
read_block (e ∷ es) h = read_positions-printed e es [] h

last_or_none : (o : Option ℤ) → (elim o [ some w ↦ some w | none ↦ none ]) ≡ o
last_or_none none = refl
last_or_none (some w) = refl

-- When the service answers with status 200, one header and the JSON text that the comment in the code
-- shows, with the client's id and any list of entries `"ticker":value`, where no ticker has a
-- quotation mark or a closing brace and the values are int32_t, `get_positions` returns a map that has
-- under each ticker the value of the last entry listed for it, and nothing under any other.
pub get_positions-holdings :
    (network : Text → Text) (id : ℤ) (c : EtfClient) (es : List (Text × ℤ))
    → All IsEntry es
    → All IsTicker es
    → network (get_request (codes "/positions/" ++ to_string id) c) ≡ holdings_response id es
    → (m : List (Text × ℤ)) × (get_positions network id c ≡ some m)
      × ((k : Text) → value_at k m ≡ last_value k es)
unfolding get_positions
get_positions-holdings network id c es h k e = (
  entered es [],
  rw (get_positions, e, body_of-holdings id es, block_of-holdings id es k) (read_block es h),
  λ t. value_at-entered t es [] ∙ last_or_none (last_value t es),
)

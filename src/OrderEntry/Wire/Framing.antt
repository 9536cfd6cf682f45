-- ===== src/OrderEntry/Wire/Framing.antt =====
-- `read_response`: which bytes it takes, however they arrive, and when it stays in its buffer.
use hftalgorithms.Base.{
  ℕ, zero, suc, ◌-◌, ◌≤◌, ◌<◌, ◌≡◌, refl, ◌∙◌, ap, ◌↔◌, ◌⊎◌, List, [], ◌∷◌, arith, ltb, length,
  length-append, All, Bool-cases, inl, inr,
}
use hftalgorithms.Base.Bytes.{Bytes, read_le}
use hftalgorithms.Base.Prefixes.{
  take, drop, concat, take_within, drop_within, take_beyond, drop_beyond, length-drop, take-drop,
  drop-drop,
}
use hftalgorithms.OrderEntry.Wire.Stream.{
  Received, lost, overrun, got, behind, recv_all, length_field, remaining, read_response,
}

-- Every `recv` gives something.
abbrev pub IsFlowing : List Bytes → Type 0
IsFlowing pieces = All (λ piece. 0 < length piece) pieces

-- So many of the bytes that arrive, and the others still to come.
abbrev Takes : ℕ → Bytes → Received → Type 0
Takes n s r =
    (rest : List Bytes) × (r ≡ got (take n s) rest) × (concat rest ≡ drop n s) × IsFlowing rest

recv_all-Takes :
    (room want : ℕ) (pieces : List Bytes)
    → want ≤ room
    → want ≤ length (concat pieces)
    → IsFlowing pieces
    → Takes want (concat pieces) (recv_all room want pieces)
unfolding recv_all take drop
recv_all-Takes room zero pieces h k f = (pieces, refl, refl, f)
recv_all-Takes room (suc want) [] h k f = ground (arith, k)
recv_all-Takes room (suc want) (piece ∷ pieces) h k f =
    elim (Bool-cases (ltb (suc want) (length piece))) [
      | inl more ↦ (
        drop (suc want) piece ∷ pieces,
        ground (arith, more, h, f.0, take_within (suc want) piece (concat pieces)),
        ground (arith, more, drop_within (suc want) piece (concat pieces)),
        (ground (arith, more, length-drop (suc want) piece), f.1),
      )
      | inr less ↦
          let (rest, done, left, flows) =
            recv_all-Takes (room - length piece) (suc want - length piece) pieces (omega (arith, h))
              (ground (arith, k, length-append piece (concat pieces))) f.1 in
          (
            rest,
            ground (arith, less, done, h, f.0, take_beyond (suc want) piece (concat pieces)),
            ground (arith, less, left, drop_beyond (suc want) piece (concat pieces)),
            flows,
          )
    ]

recv_all-overrun :
    (room want : ℕ) (pieces : List Bytes)
    → room < want
    → room < length (concat pieces)
    → IsFlowing pieces
    → recv_all room want pieces ≡ overrun
unfolding recv_all
recv_all-overrun room zero pieces h k f = ground (arith, h)
recv_all-overrun room (suc want) [] h k f = ground (arith, k)
recv_all-overrun room (suc want) (piece ∷ pieces) h k f = ground (
  arith,
  h,
  k,
  f.0,
  length-append piece (concat pieces),
  recv_all-overrun (room - length piece) (suc want - length piece) pieces,
  f.1,
)

recv_all-lost :
    (room want : ℕ) (pieces : List Bytes)
    → want ≤ room
    → length (concat pieces) < want
    → IsFlowing pieces
    → recv_all room want pieces ≡ lost
unfolding recv_all
recv_all-lost room zero pieces h k f = ground (arith, k)
recv_all-lost room (suc want) [] h k f = refl
recv_all-lost room (suc want) (piece ∷ pieces) h k f = ground (
  arith,
  h,
  k,
  f.0,
  length-append piece (concat pieces),
  recv_all-lost (room - length piece) (suc want - length piece) pieces,
  f.1,
)

length_field-take : (s : Bytes) → length_field (take 16 s) ≡ length_field s
unfolding take read_le
length_field-take [] = refl
length_field-take (a ∷ []) = refl
length_field-take (a ∷ b ∷ s) = refl

abbrev pub FitsBuffer : ℕ → Type 0
FitsBuffer n = (16 ≤ n) × (n ≤ 256)

read_on :
    (pieces body : List Bytes) (header : Bytes) (k : ℕ)
    → recv_all 16 16 pieces ≡ got header body
    → remaining (length_field header) ≡ k
    → read_response pieces ≡ behind header (recv_all 240 k body)
unfolding read_response
read_on pieces body header k e h = rw (read_response, e, h) refl

-- A response whose length fits the buffer is read whole, in whatever pieces its bytes arrive, and
-- what comes behind it stays.
pub read_response-Takes :
    (pieces : List Bytes)
    → FitsBuffer (length_field (concat pieces))
    → length_field (concat pieces) ≤ length (concat pieces)
    → IsFlowing pieces
    → Takes (length_field (concat pieces)) (concat pieces) (read_response pieces)
read_response-Takes pieces fits all_there f =
    let n = length_field (concat pieces) in
    let (body, done, left, flows) =
      recv_all-Takes 16 16 pieces (omega arith) (omega (arith, fits.0, all_there)) f in
    let same : length_field (take 16 (concat pieces)) ≡ n = length_field-take (concat pieces) in
    let wanted : remaining (length_field (take 16 (concat pieces))) ≡ n - 16 =
      rw same (omega (arith, fits.0, fits.1)) in
    let (rest, done', left', flows') =
      recv_all-Takes 240 (n - 16) body (omega (arith, fits.1))
        (rw (left, length-drop 16 (concat pieces)) (omega (arith, all_there))) flows in
    (
      rest,
      read_on pieces body _ (n - 16) done wanted
          ∙ rw (done', left) (ap (λ s. got s rest) (take-drop 16 n (concat pieces) fits.0)),
      left' ∙ rw left (drop-drop 16 n (concat pieces) fits.0),
      flows',
    )

overruns :
    (pieces : List Bytes)
    → (length_field (concat pieces) < 16) ⊎ (256 < length_field (concat pieces))
    → length_field (concat pieces) < 0x1_0000
    → 256 < length (concat pieces)
    → IsFlowing pieces
    → read_response pieces ≡ overrun
overruns pieces outside short many f =
    let (body, done, left, flows) =
      recv_all-Takes 16 16 pieces (omega arith) (omega (arith, many)) f in
    let same : length_field (take 16 (concat pieces)) ≡ length_field (concat pieces) =
      length_field-take (concat pieces) in
    read_on pieces body _ (remaining (length_field (concat pieces))) done (ap remaining same)
    ∙ rw
        (recv_all-overrun 240 (remaining (length_field (concat pieces))) body
          (ground (arith, outside, short))
          (rw (left, length-drop 16 (concat pieces)) (omega (arith, many))) flows)
        refl

-- A response that is not there as a whole is not read.
pub read_response-lost :
    (pieces : List Bytes)
    → (length (concat pieces) < 16)
      ⊎ (FitsBuffer (length_field (concat pieces))
          × (length (concat pieces) < length_field (concat pieces)))
    → IsFlowing pieces
    → read_response pieces ≡ lost
unfolding read_response
read_response-lost pieces (inl few) f =
    rw (read_response, recv_all-lost 16 16 pieces (omega arith) few f) refl
read_response-lost pieces (inr (fits, few)) f =
    elim (Bool-cases (ltb (length (concat pieces)) 16)) [
      | inl fewer ↦
          rw (read_response, recv_all-lost 16 16 pieces (omega arith) (ground (arith, fewer)) f)
            refl
      | inr enough ↦
          let (body, done, left, flows) =
            recv_all-Takes 16 16 pieces (omega arith) (ground (arith, enough)) f in
          let n = length_field (concat pieces) in
          read_on pieces body _ (n - 16) done
            (rw (length_field-take (concat pieces)) (omega (arith, fits.0, fits.1)))
          ∙ rw
              (recv_all-lost 240 (n - 16) body (omega (arith, fits.1))
                (rw (left, length-drop 16 (concat pieces)) (ground (arith, few, enough))) flows)
              refl
    ]

length_field_short : (s : Bytes) → All (λ b. b < 256) s → length_field s < 0x1_0000
unfolding read_le
length_field_short [] h = omega arith
length_field_short (a ∷ []) h = omega arith
length_field_short (a ∷ b ∷ s) h = omega (arith, h.0, h.1.0)

-- Where more than 256 bytes arrive, and every `recv` gives some, the read stores bytes behind the
-- end of its buffer exactly if the length in the header is below the header's own or above 256.
pub read_response-overruns_iff :
    (pieces : List Bytes)
    → All (λ b. b < 256) (concat pieces)
    → 256 < length (concat pieces)
    → IsFlowing pieces
    → (read_response pieces ≡ overrun)
      ↔ (length_field (concat pieces) < 16) ⊎ (256 < length_field (concat pieces))
read_response-overruns_iff pieces bytes many f = (
  λ e. elim (Bool-cases (ltb (length_field (concat pieces)) 16)) [
    | inl below ↦ inl (ground (arith, below))
    | inr not_below ↦ elim (Bool-cases (ltb 256 (length_field (concat pieces)))) [
      | inl above ↦ inr (ground (arith, above))
      | inr not_above ↦
          let (rest, done, left, flows) =
            read_response-Takes pieces (ground (arith, not_below), ground (arith, not_above))
              (ground (arith, many, not_above)) f in
          ground (arith, e, done)
    ]
  ],
  λ outside. overruns pieces outside (length_field_short (concat pieces) bytes) many f,
)

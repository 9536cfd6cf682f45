-- ===== src/OrderEntry/Wire/Fills.antt =====
-- Both waits of the client on the socket's bytes and on the list of the responses.
use hftalgorithms.Base.{
  ℕ, zero, suc, ◌+◌, ◌<◌, ◌≡◌, refl, sym, ap, ◌∙◌, subst, Bool, true, false, none, some, List, [],
  ◌∷◌, arith, length, inl, inr, Bool-cases, ltb,
}
use hftalgorithms.Base.Bytes.{Bytes}
use hftalgorithms.OrderEntry.Protocol.{Response}
use hftalgorithms.OrderEntry.{
  OeClient, received, fill_answer, await_fill, wait_for_fill, wait_for_response,
}
use hftalgorithms.OrderEntry.Wire.Stream.{
  got, read_response, Waited, answered, wait_on_socket, await_fill_on_socket, fill_on_socket,
}
use hftalgorithms.OrderEntry.Wire.Framing.{read_response-lost}
use hftalgorithms.OrderEntry.Wire.RoundTrip.{Frame, IsFrame, frame_bytes, read_message-frame_bytes}
use hftalgorithms.OrderEntry.Wire.Delivered.{
  Carries, Spells, Simulates, read_frame, received-inbox, received_keeps,
  wait_for_response-Simulates,
}

-- The responses are stamped with the clock's readings from the `k`-th on.
abbrev pub IsStamped : (ℕ → ℕ) → ℕ → List (ℕ × Response) → Type 0
IsStamped clock k [] = Unit
IsStamped clock k ((now, r) ∷ ms) = (now ≡ clock k) × IsStamped clock (k + 1) ms

along_both :
    (c : OeClient) {w w' : Waited} {o o' : Bool × OeClient}
    → w ≡ w'
    → o ≡ o'
    → Simulates c w' o'
    → Simulates c w o
along_both c {w' = w'} {o = o} e e' h =
    subst (λ x. Simulates c x o) (sym e) (subst (λ x. Simulates c w' x) (sym e') h)

module _ (clock : ℕ → ℕ) (expected deadline : ℕ) where
  abbrev next : ℕ → ℕ → List Bytes → Response → OeClient → Waited
  next fuel k rest r c = elim (fill_answer expected r) [
    | none ↦ await_fill_on_socket fuel clock (k + 1) expected deadline rest (received r c)
    | some answer ↦ answered answer (received r c) rest
  ]

  reads_next :
      (fuel k : ℕ) (pieces rest : List Bytes) (m : Frame) (r : Response) (c : OeClient)
      → ltb deadline (clock k) ≡ false
      → IsFrame m
      → m.response ≡ r
      → read_response pieces ≡ got (frame_bytes m) rest
      → await_fill_on_socket (suc fuel) clock k expected deadline pieces c ≡ next fuel k rest r c
  unfolding await_fill_on_socket
  reads_next fuel k pieces rest m r c early i same done =
      rw (await_fill_on_socket, early, done, read_message-frame_bytes m i)
        (ap (λ x. next fuel k rest x c) same)

  steps :
      (fuel k : ℕ) (rest : List Bytes) (r : Response) (ms : List (ℕ × Response)) (c : OeClient)
      → Carries rest ms
      → Simulates
          (received r c)
          (await_fill_on_socket fuel clock (k + 1) expected deadline rest (received r c))
          (await_fill expected deadline ms (received r c))
      → Simulates c (next fuel k rest r c) (elim (fill_answer expected r) [
        | none ↦ await_fill expected deadline ms (received r c)
        | some answer ↦ (answer, record (received r c) { inbox = ms })
      ])
  steps fuel k rest r ms c carried (rest', done, carried') =
      elim (fill_answer expected r)
        as (λ o.
          Simulates c
            (elim o [
              | none ↦ await_fill_on_socket fuel clock (k + 1) expected deadline rest (received r c)
              | some answer ↦ answered answer (received r c) rest
            ])
            (elim o [
              | none ↦ await_fill expected deadline ms (received r c)
              | some answer ↦ (answer, record (received r c) { inbox = ms })
            ])) [
              | none ↦ (rest', done ∙ rw (received-inbox r c) refl, carried')
              | some answer ↦ (rest, ap (λ d. answered answer d rest) (received_keeps r c), carried)
            ]

  await_fill-Simulates :
      (fuel k : ℕ) (pieces : List Bytes) (inbox : List (ℕ × Response)) (c : OeClient)
      → Carries pieces inbox
      → IsStamped clock k inbox
      → length inbox < fuel
      → Simulates c
          (await_fill_on_socket fuel clock k expected deadline pieces c)
          (await_fill expected deadline inbox c)
  unfolding await_fill_on_socket await_fill
  await_fill-Simulates zero k pieces inbox c carried stamped h = ground (arith, h)
  await_fill-Simulates (suc fuel) k pieces [] c carried stamped h =
      elim (Bool-cases (ltb deadline (clock k))) [
        | inl late ↦ (pieces, rw (await_fill_on_socket, late) refl, carried)
        | inr early ↦ (
          [],
          rw (await_fill_on_socket, early, read_response-lost pieces carried.spells carried.flowing)
              refl,
          record { spells = inl (omega arith); flowing = tt },
        )
      ]
  await_fill-Simulates (suc fuel) k pieces ((now, r) ∷ ms) c carried (stamp, stamped) h =
      elim (Bool-cases (ltb deadline (clock k))) [
        | inl late ↦
            let late' : ltb deadline now ≡ true = ap (ltb deadline) stamp ∙ late in
            along_both c {w' = answered false c pieces}
              {o' = (false, record c { inbox = (now, r) ∷ ms })}
              (rw (await_fill_on_socket, late) refl) (rw (await_fill, late') refl)
              (pieces, refl, carried)
        | inr early ↦
            let early' : ltb deadline now ≡ false = ap (ltb deadline) stamp ∙ early in
            let (m, i, same, (s, e, spells)) = carried.spells in
            let (rest, done, left, flows) = read_frame m s pieces i e carried.flowing in
            let carried' : Carries rest ms = record {
              spells = subst (Spells ms) (sym left) spells;
              flowing = flows;
            } in
            along_both c (reads_next fuel k pieces rest m r c early i same done)
              (rw (await_fill, early') refl)
              (steps fuel k rest r ms c carried' (
                await_fill-Simulates fuel (k + 1) rest ms (received r c) carried' stamped
                  (omega (arith, h))))
      ]

-- While the socket delivers whole responses that the client's buffer holds, in whatever pieces, and
-- then at most the beginning of one, `wait_for_response` and `wait_for_fill` answer and change the
-- client as they do on the list of these responses, stamped with the clock's readings, stay within
-- the buffer, and leave on the socket what remains of the list; rounds for all of them and one more
-- are enough.
pub waits-Simulates :
    (fuel expected : ℕ) (clock : ℕ → ℕ) (pieces : List Bytes) (c : OeClient)
    → Carries pieces c.inbox
    → IsStamped clock 1 c.inbox
    → length c.inbox < fuel
    → Simulates c (wait_on_socket fuel expected pieces c) (wait_for_response expected c)
      × Simulates c
          (fill_on_socket fuel clock expected pieces c)
          (wait_for_fill (clock 0) expected c)
unfolding wait_for_fill fill_on_socket
waits-Simulates fuel expected clock pieces c carried stamped h = (
  wait_for_response-Simulates fuel expected pieces c carried h,
  await_fill-Simulates clock expected (clock 0 + 5000) fuel 1 pieces c.inbox c carried stamped h,
)

-- ===== src/OrderEntry/Wire/Delivered.antt =====
-- The client on the socket's bytes and the client on the list of the responses that it is given.
use hftalgorithms.Base.{
  ℕ, zero, suc, ◌≤◌, ◌<◌, ◌≡◌, refl, sym, ap, ◌∙◌, subst, none, some, List, [], ◌∷◌, ◌++◌, arith,
  length, length-append, ◌⊎◌, inl, Bool,
}
use hftalgorithms.Base.Bytes.{Bytes, read_le, le}
use hftalgorithms.Base.Prefixes.{take, drop, concat, take-append, drop-append}
use hftalgorithms.OrderEntry.Protocol.{Response, acked, rejected, filled, order_closed, unhandled}
use hftalgorithms.OrderEntry.{
  OeClient, received, response_answer, await_response, wait_for_response,
}
use hftalgorithms.OrderEntry.Wire.Stream.{
  got, length_field, read_response, Waited, answered, wait_on_socket,
}
use hftalgorithms.OrderEntry.Wire.Framing.{
  IsFlowing, FitsBuffer, read_response-Takes, read_response-lost,
}
use hftalgorithms.OrderEntry.Wire.RoundTrip.{Frame, IsFrame, frame_bytes, read_message-frame_bytes}

-- The end of a connection: a message that is not there as a whole.
abbrev pub IsCut : Bytes → Type 0
IsCut tail =
    (length tail < 16) ⊎ (FitsBuffer (length_field tail) × (length tail < length_field tail))

-- Bytes that are these responses, one behind the other, and such an end.
abbrev pub Spells : List (ℕ × Response) → Bytes → Type 0
Spells [] s = IsCut s
Spells ((now, r) ∷ ms) s =
    (m : Frame) × IsFrame m
    × (m.response ≡ r)
    × ((s' : Bytes) × (s ≡ frame_bytes m ++ s') × Spells ms s')

pub record Carries (pieces : List Bytes) (inbox : List (ℕ × Response)) : Type 0 where
  pub spells : Spells inbox (concat pieces)
  pub flowing : IsFlowing pieces

length_field-frame :
    (m : Frame) (s : Bytes) → IsFrame m → length_field (frame_bytes m ++ s) ≡ m.header.length
unfolding frame_bytes read_le le
length_field-frame m s i = omega (arith, i.header.length)

frame_is_long : (m : Frame) → IsFrame m → 16 ≤ m.header.length
unfolding frame_bytes le
frame_is_long m i = rw i.length (omega arith)

taken :
    (n : ℕ) (xs s bytes : Bytes)
    → n ≡ length xs
    → bytes ≡ xs ++ s
    → (take n bytes ≡ xs) × (drop n bytes ≡ s)
taken n xs s bytes e h = rw (e, h) (take-append xs s, drop-append xs s)

pub read_whole :
    (n : ℕ) (bytes s : Bytes) (pieces : List Bytes)
    → length_field (bytes ++ s) ≡ n
    → n ≡ length bytes
    → FitsBuffer n
    → concat pieces ≡ bytes ++ s
    → IsFlowing pieces
    → (rest : List Bytes) × (read_response pieces ≡ got bytes rest)
      × (concat rest ≡ s)
      × IsFlowing rest
read_whole n bytes s pieces field size fits e f =
    let same : length_field (concat pieces) ≡ n = rw e field in
    let (rest, done, left, flows) =
      read_response-Takes pieces (rw same fits)
        (rw (same, e, length-append bytes s, size) (omega arith)) f in
    let (front, behind) = taken _ bytes s (concat pieces) (same ∙ size) e in
    (rest, done ∙ ap (λ xs. got xs rest) front, left ∙ behind, flows)

pub read_frame :
    (m : Frame) (s : Bytes) (pieces : List Bytes)
    → IsFrame m
    → concat pieces ≡ frame_bytes m ++ s
    → IsFlowing pieces
    → (rest : List Bytes) × (read_response pieces ≡ got (frame_bytes m) rest)
      × (concat rest ≡ s)
      × IsFlowing rest
read_frame m s pieces i e f =
    read_whole m.header.length (frame_bytes m) s pieces (length_field-frame m s i) i.length
      (frame_is_long m i, i.short) e f

-- The socket and the inbox go on together.
abbrev pub Simulates : OeClient → Waited → Bool × OeClient → Type 0
Simulates c w (answer, c') =
    (rest : List Bytes) × (w ≡ answered answer (record c' { inbox = c.inbox }) rest)
    × Carries rest c'.inbox

pub received-inbox : (r : Response) (c : OeClient) → (received r c).inbox ≡ c.inbox
unfolding received
received-inbox (acked a) c = refl
received-inbox (rejected r) c = refl
received-inbox (filled f) c = refl
received-inbox (order_closed o) c = refl
received-inbox (unhandled t) c = refl

pub received_keeps :
    (r : Response) (c : OeClient) → received r c ≡ record (received r c) { inbox = c.inbox }
unfolding received
received_keeps (acked a) c = refl
received_keeps (rejected r) c = refl
received_keeps (filled f) c = refl
received_keeps (order_closed o) c = refl
received_keeps (unhandled t) c = refl

abbrev next : ℕ → ℕ → List Bytes → Response → OeClient → Waited
next fuel expected rest r c = elim (response_answer expected r) [
  | none ↦ wait_on_socket fuel expected rest (received r c)
  | some answer ↦ answered answer (received r c) rest
]

reads_next :
    (fuel expected : ℕ) (pieces rest : List Bytes) (m : Frame) (r : Response) (c : OeClient)
    → IsFrame m
    → m.response ≡ r
    → read_response pieces ≡ got (frame_bytes m) rest
    → wait_on_socket (suc fuel) expected pieces c ≡ next fuel expected rest r c
unfolding wait_on_socket
reads_next fuel expected pieces rest m r c i same done =
    rw (wait_on_socket, done, read_message-frame_bytes m i)
      (ap (λ x. next fuel expected rest x c) same)

steps :
    (fuel expected : ℕ) (rest : List Bytes) (r : Response) (ms : List (ℕ × Response)) (c : OeClient)
    → Carries rest ms
    → Simulates
        (received r c)
        (wait_on_socket fuel expected rest (received r c))
        (await_response expected ms (received r c))
    → Simulates c (next fuel expected rest r c) (elim (response_answer expected r) [
      | none ↦ await_response expected ms (received r c)
      | some answer ↦ (answer, record (received r c) { inbox = ms })
    ])
steps fuel expected rest r ms c k (rest', done, carried) =
    elim (response_answer expected r)
      as (λ o.
        Simulates c
          (elim o [
            | none ↦ wait_on_socket fuel expected rest (received r c)
            | some answer ↦ answered answer (received r c) rest
          ])
          (elim o [
            | none ↦ await_response expected ms (received r c)
            | some answer ↦ (answer, record (received r c) { inbox = ms })
          ])) [
            | none ↦ (rest', done ∙ rw (received-inbox r c) refl, carried)
            | some answer ↦ (rest, ap (λ d. answered answer d rest) (received_keeps r c), k)
          ]

await_Simulates :
    (fuel expected : ℕ) (pieces : List Bytes) (inbox : List (ℕ × Response)) (c : OeClient)
    → Carries pieces inbox
    → length inbox < fuel
    → Simulates c (wait_on_socket fuel expected pieces c) (await_response expected inbox c)
unfolding wait_on_socket await_response
await_Simulates zero expected pieces inbox c k h = ground (arith, h)
await_Simulates (suc fuel) expected pieces [] c k h = (
  [],
  rw (wait_on_socket, read_response-lost pieces k.spells k.flowing) refl,
  record { spells = inl (omega arith); flowing = tt },
)
await_Simulates (suc fuel) expected pieces ((now, r) ∷ ms) c k h =
    let (m, i, same, (s, e, spells)) = k.spells in
    let (rest, done, left, flows) = read_frame m s pieces i e k.flowing in
    let carried : Carries rest ms = record {
      spells = subst (Spells ms) (sym left) spells;
      flowing = flows;
    } in
    subst (λ w. Simulates c w (await_response expected ((now, r) ∷ ms) c))
      (sym (reads_next fuel expected pieces rest m r c i same done))
      (steps fuel expected rest r ms c carried
        (await_Simulates fuel expected rest ms (received r c) carried (omega (arith, h))))

pub wait_for_response-Simulates :
    (fuel expected : ℕ) (pieces : List Bytes) (c : OeClient)
    → Carries pieces c.inbox
    → length c.inbox < fuel
    → Simulates c (wait_on_socket fuel expected pieces c) (wait_for_response expected c)
unfolding wait_for_response
wait_for_response-Simulates fuel expected pieces c k h =
    await_Simulates fuel expected pieces c.inbox c k h

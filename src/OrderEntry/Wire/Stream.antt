-- ===== src/OrderEntry/Wire/Stream.antt =====
-- `read_response` of oe_client.cpp: a response is taken from the connection's bytes into a buffer of
-- 256. The socket is the list of the pieces in which its bytes arrive; an empty piece, or none, is a
-- `recv` that gives nothing and so ends the read.
use hftalgorithms.Base.{
  ℕ, zero, suc, Bool, false, ◌+◌, ◌-◌, ◌%◌, none, some, List, [], ◌∷◌, ◌++◌, ltb, ◌==◌,
  if◌then◌else◌, length,
}
use hftalgorithms.Base.Bytes.{Bytes, read_le}
use hftalgorithms.Base.Prefixes.{take, drop}
use hftalgorithms.OrderEntry.{OeClient, received, response_answer, fill_answer}
use hftalgorithms.OrderEntry.Session.{log_in}
use hftalgorithms.OrderEntry.Wire.{read_message, read_login_response}

-- `lost` is a read that fails, `overrun` a byte that is stored behind the end of the buffer.
pub data Received : Type 0 where
  lost overrun : Received
  got : Bytes → List Bytes → Received

abbrev pub behind : Bytes → Received → Received
behind bytes lost = lost
behind bytes overrun = overrun
behind bytes (got more rest) = got (bytes ++ more) rest

-- A loop `while (total < wanted)` around `recv`, into a buffer with so much room.
unfoldable pub recv_all : ℕ → ℕ → List Bytes → Received
recv_all room zero pieces = got [] pieces
recv_all room (suc want) [] = lost
recv_all room (suc want) (piece ∷ pieces) =
    let n = length piece in
    let rest = recv_all (room - n) (suc want - n) pieces in
    if n == 0
    then lost
    else if ltb (suc want) n
    then if ltb room (suc want)
      then overrun
      else got (take (suc want) piece) (drop (suc want) piece ∷ pieces)
    else if ltb room n
    then overrun
    else behind piece rest

-- `hdr.length`
abbrev pub length_field : Bytes → ℕ
length_field header = elim (read_le 2 header) [ none ↦ 0 | some (n, rest) ↦ n ]

-- `hdr.length - sizeof(hdr)`, in 64 bits without a sign.
abbrev pub remaining : ℕ → ℕ
remaining n = (n + 0x1_0000_0000_0000_0000 - 16) % 0x1_0000_0000_0000_0000

unfoldable pub read_response : List Bytes → Received
read_response pieces = elim (recv_all 16 16 pieces) [
  | lost ↦ lost
  | overrun ↦ overrun
  | got header rest ↦ behind header (recv_all 240 (remaining (length_field header)) rest)
]

-- What a call comes to: `fault` is a byte stored or read outside the buffer's contents, `waiting` a
-- loop that has used up its fuel.
pub data Waited : Type 0 where
  fault waiting : Waited
  answered : Bool → OeClient → List Bytes → Waited

abbrev pub ended : Bool × OeClient → List Bytes → Waited
ended (answer, c) rest = answered answer c rest

-- `wait_for_response` on the socket. The client's own `inbox` is left alone.
unfoldable pub wait_on_socket : ℕ → ℕ → List Bytes → OeClient → Waited
wait_on_socket zero expected pieces c = waiting
wait_on_socket (suc fuel) expected pieces c = elim (read_response pieces) [
  | lost ↦ answered false c []
  | overrun ↦ fault
  | got buf rest ↦ elim (read_message buf) [
    | none ↦ fault
    | some (m, unused) ↦ elim (response_answer expected m) [
      | none ↦ wait_on_socket fuel expected rest (received m c)
      | some answer ↦ answered answer (received m c) rest
    ]
  ]
]

-- `login` on the socket. It takes the next message as a login response, whatever its type is.
unfoldable pub log_in_on_socket : List ℕ → List ℕ → ℕ → List Bytes → OeClient → Waited
log_in_on_socket username password client_id pieces c = elim (read_response pieces) [
  | lost ↦ ended (log_in username password client_id none c) []
  | overrun ↦ fault
  | got buf rest ↦ elim (read_login_response buf) [
    | none ↦ fault
    | some (r, unused) ↦ ended (log_in username password client_id (some r) c) rest
  ]
]

-- The loop of `wait_for_fill` on the socket, where the clock's `k`-th reading is the next one.
unfoldable pub await_fill_on_socket : ℕ → (ℕ → ℕ) → ℕ → ℕ → ℕ → List Bytes → OeClient → Waited
await_fill_on_socket zero clock k expected deadline pieces c = waiting
await_fill_on_socket (suc fuel) clock k expected deadline pieces c =
    if ltb deadline (clock k) then answered false c pieces else elim (read_response pieces) [
      | lost ↦ answered false c []
      | overrun ↦ fault
      | got buf rest ↦ elim (read_message buf) [
        | none ↦ fault
        | some (m, unused) ↦ elim (fill_answer expected m) [
          | none ↦ await_fill_on_socket fuel clock (k + 1) expected deadline rest (received m c)
          | some answer ↦ answered answer (received m c) rest
        ]
      ]
    ]

-- `wait_for_fill` on the socket.
unfoldable pub fill_on_socket : ℕ → (ℕ → ℕ) → ℕ → List Bytes → OeClient → Waited
fill_on_socket fuel clock expected pieces c =
    await_fill_on_socket fuel clock 1 expected (clock 0 + 5000) pieces c

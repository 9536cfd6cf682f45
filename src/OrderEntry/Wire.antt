-- ===== src/OrderEntry/Wire.antt =====
-- The packed structs of oe_messages.h: a request as the bytes that `send_raw` is given, and a
-- response as the casts of oe_client.cpp read it in the buffer of `read_response`.
pub mod Framing
pub mod Stream
mod RoundTrip
mod Delivered
mod Fills
pub mod Requests
pub mod Orderly
mod Ordered
mod Welcome
mod Tests
use hftalgorithms.Base.{
  ℕ, ◌+◌, ◌-◌, Bool, true, false, Option, none, some, List, [], ◌∷◌, ◌++◌, ◌==◌, ltb, if◌then◌else◌,
}
use hftalgorithms.Base.Int.{ℤ, u32_of}
use hftalgorithms.Base.Bytes.{Bytes, le, packed, Reader, read_le, read_as, read_i32, ◌>>=◌, pure}
use hftalgorithms.Messages.{Side, buy, sell, other_side}
use hftalgorithms.OrderEntry.Protocol.{
  OeType, new_order, delete_order, modify_order, login, login_response, ack, reject, fill, close,
  error, other_oe_type, RejectReason, none_given, unknown_symbol, invalid_order, duplicate_order_id,
  unknown_order_id, invalid_price, invalid_quantity, invalid_side, unknown_session_id,
  duplicate_login, other_reason, FillFlags, no_flags, partial_fill, closed, other_flags,
  LoginStatus, success, invalid_username, invalid_password, invalid_session, session_already_active,
  status_duplicate_login, invalid_client_id, other_status, RequestHeader, ResponseHeader, Request,
  login_msg, new_order_msg, delete_order_msg, modify_order_msg, LoginResponse, OrderAck,
  OrderReject, OrderFill, OrderClosed, Response, acked, rejected, filled, order_closed, unhandled,
}

abbrev pub oe_code : OeType → ℕ
oe_code new_order = 1
oe_code delete_order = 2
oe_code modify_order = 3
oe_code login = 99
oe_code login_response = 100
oe_code ack = 101
oe_code reject = 102
oe_code fill = 103
oe_code close = 104
oe_code error = 105
oe_code (other_oe_type n) = n

abbrev pub side_code : Side → ℕ
side_code buy = 1
side_code sell = 2
side_code (other_side n) = n

-- `(uint8_t)t`, read back.
abbrev pub oe_type_of : ℕ → OeType
oe_type_of n =
    if n == 1
    then new_order
    else if n == 2
    then delete_order
    else if n == 3
    then modify_order
    else if n == 99
    then login
    else if n == 100
    then login_response
    else if n == 101
    then ack
    else if n == 102
    then reject
    else if n == 103
    then fill
    else if n == 104
    then close
    else if n == 105
    then error
    else other_oe_type n

abbrev pub reason_of : ℕ → RejectReason
reason_of n =
    if n == 0
    then none_given
    else if n == 1
    then unknown_symbol
    else if n == 2
    then invalid_order
    else if n == 3
    then duplicate_order_id
    else if n == 4
    then unknown_order_id
    else if n == 5
    then invalid_price
    else if n == 6
    then invalid_quantity
    else if n == 7
    then invalid_side
    else if n == 8
    then unknown_session_id
    else if n == 9
    then duplicate_login
    else other_reason n

abbrev pub fill_flags_of : ℕ → FillFlags
fill_flags_of n =
    if n == 0
    then no_flags
    else if n == 1
    then partial_fill
    else if n == 2
    then closed
    else other_flags n

abbrev pub status_of : ℕ → LoginStatus
status_of n =
    if n == 0
    then success
    else if n == 5
    then invalid_username
    else if n == 6
    then invalid_password
    else if n == 7
    then invalid_session
    else if n == 8
    then session_already_active
    else if n == 9
    then status_duplicate_login
    else if n == 10
    then invalid_client_id
    else other_status n

-- `oe_request_header`
abbrev pub request_header_bytes : RequestHeader → Bytes
request_header_bytes h = packed (
    le 2 h.length
    ∷ le 1 (oe_code h.msg_type)
    ∷ le 1 h.version
    ∷ le 4 h.seq_num
    ∷ le 4 h.client_id
    ∷ le 8 h.session_id
    ∷ [])

-- The bytes of a request's struct.
pub request_bytes : Request → Bytes
request_bytes (login_msg m) = packed (request_header_bytes m.header ∷ m.username ∷ m.password ∷ [])
request_bytes (new_order_msg m) = packed (
    request_header_bytes m.header
    ∷ le 8 m.order_id
    ∷ le 4 m.symbol
    ∷ le 1 (side_code m.side)
    ∷ le 4 m.quantity
    ∷ le 4 (u32_of m.price)
    ∷ le 1 m.flags
    ∷ [])
request_bytes (delete_order_msg m) = packed (request_header_bytes m.header ∷ le 8 m.order_id ∷ [])
request_bytes (modify_order_msg m) = packed (
    request_header_bytes m.header
    ∷ le 8 m.order_id
    ∷ le 1 (side_code m.side)
    ∷ le 4 m.quantity
    ∷ le 4 (u32_of m.price)
    ∷ [])

-- `oe_response_header`
pub read_header : Reader ResponseHeader
read_header = do
  length ← read_le 2
  msg_type ← read_as oe_type_of
  version ← read_le 1
  seq_num ← read_le 4
  last_seq_num ← read_le 4
  client_id ← read_le 4
  pure (record {
    length = length;
    msg_type = msg_type;
    version = version;
    seq_num = seq_num;
    last_seq_num = last_seq_num;
    client_id = client_id;
  })

pub read_ack : Reader OrderAck
read_ack = do
  order_id ← read_le 8
  exch_order_id ← read_le 8
  quantity ← read_le 4
  price ← read_i32
  pure (record {
    order_id = order_id;
    exch_order_id = exch_order_id;
    quantity = quantity;
    price = price;
  })

pub read_reject : Reader OrderReject
read_reject = do
  order_id ← read_le 8
  reason ← read_as reason_of
  pure (record { order_id = order_id; reject_reason = reason })

pub read_fill : Reader OrderFill
read_fill = do
  order_id ← read_le 8
  quantity ← read_le 4
  price ← read_i32
  flags ← read_as fill_flags_of
  pure (record { order_id = order_id; quantity = quantity; price = price; flags = flags })

pub read_closed : Reader OrderClosed
read_closed = do order_id ← read_le 8; pure (record { order_id = order_id })

-- What stands behind a header of this type.
pub read_body : OeType → Reader Response
read_body ack = do a ← read_ack; pure (acked a)
read_body reject = do r ← read_reject; pure (rejected r)
read_body fill = do f ← read_fill; pure (filled f)
read_body close = do o ← read_closed; pure (order_closed o)
read_body t = pure (unhandled t)

-- A response in the buffer.
pub read_message : Reader Response
read_message = do h ← read_header; read_body h.msg_type

pub read_login_response : Reader LoginResponse
read_login_response = do
  _ ← read_header
  session_id ← read_le 8
  status ← read_as status_of
  pure (record { session_id = session_id; status = status })

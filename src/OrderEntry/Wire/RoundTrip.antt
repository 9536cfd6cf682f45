-- ===== src/OrderEntry/Wire/RoundTrip.antt =====
-- The responses of oe_messages.h as the bytes that the exchange sends, and their reading.
use hftalgorithms.Base.{ℕ, ◌≤◌, ◌<◌, ◌≡◌, sym, subst, some, [], ◌∷◌, ◌++◌, length}
use hftalgorithms.Base.Int.{u32_of, IsI32}
use hftalgorithms.Base.Bytes.{
  Bytes, le, limit, packed, ◌>>=◌, pure, Reads, map-Reads, pure-Reads, >>=-Reads, read_le-Reads,
  read_as-Reads, read_i32-Reads,
}
use hftalgorithms.OrderEntry.Protocol.{
  OeType, ack, reject, fill, close, RejectReason, none_given, unknown_symbol, invalid_order,
  duplicate_order_id, unknown_order_id, invalid_price, invalid_quantity, invalid_side,
  unknown_session_id, duplicate_login, other_reason, FillFlags, no_flags, partial_fill, closed,
  other_flags, ResponseHeader, OrderAck, OrderReject, OrderFill, OrderClosed, Response, acked,
  rejected, filled, order_closed, unhandled,
}
use hftalgorithms.OrderEntry.Wire.{
  oe_code, oe_type_of, reason_of, fill_flags_of, read_header, read_ack, read_reject, read_fill,
  read_closed, read_body, read_message,
}

abbrev reason_code : RejectReason → ℕ
reason_code none_given = 0
reason_code unknown_symbol = 1
reason_code invalid_order = 2
reason_code duplicate_order_id = 3
reason_code unknown_order_id = 4
reason_code invalid_price = 5
reason_code invalid_quantity = 6
reason_code invalid_side = 7
reason_code unknown_session_id = 8
reason_code duplicate_login = 9
reason_code (other_reason n) = n

abbrev flags_code : FillFlags → ℕ
flags_code no_flags = 0
flags_code partial_fill = 1
flags_code closed = 2
flags_code (other_flags n) = n

abbrev pub header_bytes : ResponseHeader → Bytes
header_bytes h = packed (
    le 2 h.length
    ∷ le 1 (oe_code h.msg_type)
    ∷ le 1 h.version
    ∷ le 4 h.seq_num
    ∷ le 4 h.last_seq_num
    ∷ le 4 h.client_id
    ∷ [])

abbrev body_bytes : Response → Bytes
body_bytes (acked a) =
    packed (le 8 a.order_id ∷ le 8 a.exch_order_id ∷ le 4 a.quantity ∷ le 4 (u32_of a.price) ∷ [])
body_bytes (rejected r) = packed (le 8 r.order_id ∷ le 1 (reason_code r.reject_reason) ∷ [])
body_bytes (filled f) =
    packed
      (le 8 f.order_id ∷ le 4 f.quantity ∷ le 4 (u32_of f.price) ∷ le 1 (flags_code f.flags) ∷ [])
body_bytes (order_closed o) = packed (le 8 o.order_id ∷ [])
body_bytes (unhandled t) = []

-- A response with its header, and what the struct of its type has more than the client reads.
pub record Frame : Type 0 where
  pub header : ResponseHeader
  pub response : Response
  pub more : Bytes

unfoldable pub frame_bytes : Frame → Bytes
frame_bytes m = packed (header_bytes m.header ∷ body_bytes m.response ∷ m.more ∷ [])

abbrev pub type_of : Response → OeType
type_of (acked a) = ack
type_of (rejected r) = reject
type_of (filled f) = fill
type_of (order_closed o) = close
type_of (unhandled t) = t

-- The fields are values of their types in C++, and a value with a name is written by it.
pub record IsHeader (h : ResponseHeader) : Type 0 where
  pub length : h.length < limit 2
  pub msg_type : oe_code h.msg_type < 256
  pub named : oe_type_of (oe_code h.msg_type) ≡ h.msg_type
  pub version : h.version < 256
  pub seq_num : h.seq_num < limit 4
  pub last_seq_num : h.last_seq_num < limit 4
  pub client_id : h.client_id < limit 4

abbrev IsResponse : Response → Type 0
IsResponse (acked a) =
    (a.order_id < limit 8) × (a.exch_order_id < limit 8) × (a.quantity < limit 4) × IsI32 a.price
IsResponse (rejected r) =
    (r.order_id < limit 8)
    × (reason_code r.reject_reason < 256)
    × (reason_of (reason_code r.reject_reason) ≡ r.reject_reason)
IsResponse (filled f) =
    (f.order_id < limit 8)
    × (f.quantity < limit 4)
    × IsI32 f.price
    × (flags_code f.flags < 256)
    × (fill_flags_of (flags_code f.flags) ≡ f.flags)
IsResponse (order_closed o) = o.order_id < limit 8
IsResponse (unhandled t) = read_body t ≡ pure (unhandled t)

pub header-Reads : (h : ResponseHeader) → IsHeader h → Reads read_header (header_bytes h) h
unfolding read_header
header-Reads h i = >>=-Reads _ (read_le-Reads 2 h.length i.length) (
    >>=-Reads _ (read_as-Reads oe_type_of (oe_code h.msg_type) h.msg_type i.msg_type i.named) (
      >>=-Reads _ (read_le-Reads 1 h.version i.version) (
        >>=-Reads _ (read_le-Reads 4 h.seq_num i.seq_num) (
          >>=-Reads _ (read_le-Reads 4 h.last_seq_num i.last_seq_num)
            (>>=-Reads _ (read_le-Reads 4 h.client_id i.client_id) (pure-Reads h))))))

ack-Reads : (a : OrderAck) → IsResponse (acked a) → Reads read_ack (body_bytes (acked a)) a
unfolding read_ack
ack-Reads a (p, q, r, s) = >>=-Reads _ (read_le-Reads 8 a.order_id p) (
    >>=-Reads _ (read_le-Reads 8 a.exch_order_id q) (
      >>=-Reads _ (read_le-Reads 4 a.quantity r)
        (>>=-Reads _ (read_i32-Reads a.price s) (pure-Reads a))))

reject-Reads :
    (r : OrderReject) → IsResponse (rejected r) → Reads read_reject (body_bytes (rejected r)) r
unfolding read_reject
reject-Reads r (p, q, e) = >>=-Reads _ (read_le-Reads 8 r.order_id p) (
    >>=-Reads _ (read_as-Reads reason_of (reason_code r.reject_reason) r.reject_reason q e)
      (pure-Reads r))

fill-Reads : (f : OrderFill) → IsResponse (filled f) → Reads read_fill (body_bytes (filled f)) f
unfolding read_fill
fill-Reads f (p, q, r, s, e) = >>=-Reads _ (read_le-Reads 8 f.order_id p) (
    >>=-Reads _ (read_le-Reads 4 f.quantity q) (
      >>=-Reads _ (read_i32-Reads f.price r) (
        >>=-Reads _ (read_as-Reads fill_flags_of (flags_code f.flags) f.flags s e) (pure-Reads f))))

closed-Reads :
    (o : OrderClosed)
    → IsResponse (order_closed o)
    → Reads read_closed (body_bytes (order_closed o)) o
unfolding read_closed
closed-Reads o p = >>=-Reads _ (read_le-Reads 8 o.order_id p) (pure-Reads o)

body-Reads : (r : Response) → IsResponse r → Reads (read_body (type_of r)) (body_bytes r) r
unfolding read_body
body-Reads (acked a) i = map-Reads acked (ack-Reads a i)
body-Reads (rejected r) i = map-Reads rejected (reject-Reads r i)
body-Reads (filled f) i = map-Reads filled (fill-Reads f i)
body-Reads (order_closed o) i = map-Reads order_closed (closed-Reads o i)
body-Reads (unhandled t) i =
    subst (λ m. Reads m [] (unhandled t)) (sym i) (pure-Reads (unhandled t))

-- What the exchange sends: the length is that of the whole message, and it fits the buffer.
pub record IsFrame (m : Frame) : Type 0 where
  pub header : IsHeader m.header
  pub response : IsResponse m.response
  pub msg_type : m.header.msg_type ≡ type_of m.response
  pub length : m.header.length ≡ length (frame_bytes m)
  pub short : m.header.length ≤ 256

-- A message's bytes are read as the response that they carry, with all its fields.
pub read_message-frame_bytes :
    (m : Frame) → IsFrame m → read_message (frame_bytes m) ≡ some (m.response, m.more ++ [])
unfolding read_message frame_bytes
read_message-frame_bytes m i =
    rw (◌>>=◌, (header-Reads m.header i.header).reads (body_bytes m.response ++ (m.more ++ [])))
      (rw i.msg_type ((body-Reads m.response i.response).reads (m.more ++ [])))

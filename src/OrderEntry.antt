-- ===== src/OrderEntry.antt =====
-- oe_client.h and oe_client.cpp: the order entry client. The socket is the list of the
-- responses that it will still deliver, each with the clock, in milliseconds, at which the client
-- turns to it; an empty list is a read that fails. What is sent and the callbacks made are lists.
pub mod Protocol
pub mod Wire
pub mod Session
mod Waiting
pub mod Cancelling
mod Tests
use hftalgorithms.Base.{
  ℕ, ◌+◌, Bool, true, false, Option, none, some, List, [], ◌∷◌, ◌++◌, ltb, ◌==◌, if◌then◌else◌,
  ◌&&◌,
}
use hftalgorithms.Base.Int.{ℤ, add_u32}
use hftalgorithms.Messages.{Side}
use Protocol.{
  OeType, new_order, delete_order, modify_order, RejectReason, unknown_order_id, FillFlags,
  no_flags, partial_fill, closed, other_flags, RequestHeader, OeNewOrder, OeDeleteOrder,
  OeModifyOrder, Request, new_order_msg, delete_order_msg, modify_order_msg, OrderFill, OrderClosed,
  Response, acked, rejected, filled, order_closed, unhandled, FillEvent, Callback, on_fill,
  on_reject, on_close,
}

pub record OeClient : Type 0 where
  pub session_id : ℕ
  pub seq_num : ℕ
  pub client_id : ℕ
  pub live_orders : List ℕ
  pub inbox : List (ℕ × Response)
  pub sent : List Request
  pub calls : List Callback

abbrev pub is_in : ℕ → List ℕ → Bool
is_in id [] = false
is_in id (j ∷ js) = if j == id then true else is_in id js

-- `live_orders_.insert`
pub add_live : ℕ → List ℕ → List ℕ
add_live id js = if is_in id js then js else id ∷ js

-- `live_orders_.erase`
pub drop_live : ℕ → List ℕ → List ℕ
drop_live id [] = []
drop_live id (j ∷ js) = if j == id then drop_live id js else j ∷ drop_live id js

abbrev pub is_closed : OrderFill → Bool
is_closed f = elim f.flags [
  | no_flags ↦ false
  | partial_fill ↦ false
  | closed ↦ true
  | other_flags n ↦ false
]

abbrev pub is_unknown : RejectReason → Bool
is_unknown unknown_order_id = true
is_unknown _ = false

abbrev pub fill_event : OrderFill → FillEvent
fill_event f = record {
  order_id = f.order_id;
  qty = f.quantity;
  price = f.price;
  closed = is_closed f;
}

-- What both waiting loops do with a response, apart from returning.
pub received : Response → OeClient → OeClient
received (acked a) c = record c { live_orders = add_live a.order_id c.live_orders }
received (rejected r) c = record c { calls = c.calls ++ on_reject r.order_id ∷ [] }
received (filled f) c = record c {
  calls = c.calls ++ on_fill (fill_event f) ∷ [];
  live_orders = if is_closed f then drop_live f.order_id c.live_orders else c.live_orders;
}
received (order_closed o) c = record c {
  live_orders = drop_live o.order_id c.live_orders;
  calls = c.calls ++ on_close o.order_id ∷ [];
}
received (unhandled t) c = c

-- The returns of `wait_for_response` at a response, and `none` where its loop goes on.
pub response_answer : ℕ → Response → Option Bool
response_answer expected (acked a) = if a.order_id == expected then some true else none
response_answer expected (rejected r) =
    if r.order_id == expected then some (is_unknown r.reject_reason) else none
response_answer expected (filled f) = if is_closed f then some true else none
response_answer expected (order_closed o) = some true
response_answer expected (unhandled t) = none

-- The inner loop of `wait_for_response`. It does not go back to the outer one, so the deadline is
-- read once, when it is set.
pub await_response : ℕ → List (ℕ × Response) → OeClient → Bool × OeClient
await_response expected [] c = (false, record c { inbox = [] })
await_response expected ((now, m) ∷ ms) c = elim (response_answer expected m) [
  | none ↦ await_response expected ms (received m c)
  | some answer ↦ (answer, record (received m c) { inbox = ms })
]

unfoldable pub wait_for_response : ℕ → OeClient → Bool × OeClient
wait_for_response expected c = await_response expected c.inbox c

-- The returns of `wait_for_fill` at a response.
pub fill_answer : ℕ → Response → Option Bool
fill_answer expected (acked a) = none
fill_answer expected (rejected r) = if r.order_id == expected then some false else none
fill_answer expected (filled f) =
    if (f.order_id == expected) && is_closed f then some true else none
fill_answer expected (order_closed o) = if o.order_id == expected then some false else none
fill_answer expected (unhandled t) = none

-- The loop of `wait_for_fill`; past its deadline it leaves the response unread.
pub await_fill : ℕ → ℕ → List (ℕ × Response) → OeClient → Bool × OeClient
await_fill expected deadline [] c = (false, record c { inbox = [] })
await_fill expected deadline ((now, m) ∷ ms) c =
    if ltb deadline now
    then (false, record c { inbox = (now, m) ∷ ms })
    else elim (fill_answer expected m) [
      | none ↦ await_fill expected deadline ms (received m c)
      | some answer ↦ (answer, record (received m c) { inbox = ms })
    ]

-- Called at time `now`.
unfoldable pub wait_for_fill : ℕ → ℕ → OeClient → Bool × OeClient
wait_for_fill now expected c = await_fill expected (now + 5000) c.inbox c

-- The header of the next request; the structs are packed, so `sizeof` is the sum of their fields.
abbrev pub next_header : ℕ → OeType → OeClient → RequestHeader
next_header size type c = record {
  length = size;
  msg_type = type;
  version = 1;
  seq_num = add_u32 c.seq_num 1;
  client_id = c.client_id;
  session_id = c.session_id;
}

-- `++seq_num_` and `send_raw`.
abbrev pub send_raw : Request → OeClient → OeClient
send_raw msg c = record c { seq_num = add_u32 c.seq_num 1; sent = c.sent ++ msg ∷ [] }

unfoldable pub send_new_order_no_wait : ℕ → ℕ → Side → ℕ → ℤ → OeClient → OeClient
send_new_order_no_wait order_id symbol side qty price c =
    send_raw
      (new_order_msg (record {
        header = next_header 42 new_order c;
        order_id = order_id;
        symbol = symbol;
        side = side;
        quantity = qty;
        price = price;
        flags = 0;
      }))
      c

unfoldable pub send_new_order : ℕ → ℕ → Side → ℕ → ℤ → OeClient → Bool × OeClient
send_new_order order_id symbol side qty price c =
    wait_for_response order_id (send_new_order_no_wait order_id symbol side qty price c)

abbrev pub delete_request : ℕ → OeClient → Request
delete_request order_id c =
    delete_order_msg (record { header = next_header 28 delete_order c; order_id = order_id })

pub delete_order_by_id : ℕ → OeClient → Bool × OeClient
delete_order_by_id order_id c = wait_for_response order_id (send_raw (delete_request order_id c) c)

pub modify_order_by_id : ℕ → Side → ℕ → ℤ → OeClient → Bool × OeClient
modify_order_by_id order_id side qty price c = wait_for_response order_id (
    send_raw
      (modify_order_msg (record {
        header = next_header 37 modify_order c;
        order_id = order_id;
        side = side;
        quantity = qty;
        price = price;
      }))
      c)

-- The loop of `cancel_all_open_orders`.
pub cancel_live : List ℕ → OeClient → OeClient
cancel_live [] c = c
cancel_live (id ∷ ids) c = cancel_live ids (delete_order_by_id id c).1

pub cancel_all_live_orders : OeClient → OeClient
cancel_all_live_orders c = cancel_live c.live_orders c

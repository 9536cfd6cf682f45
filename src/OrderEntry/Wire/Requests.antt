-- ===== src/OrderEntry/Wire/Requests.antt =====
-- The calls of an order entry client as data, and the bytes that they put on the connection.
use hftalgorithms.Base.{ℕ, Option, List, [], ◌∷◌}
use hftalgorithms.Base.Int.{ℤ}
use hftalgorithms.Messages.{Side}
use hftalgorithms.OrderEntry.Protocol.{
  RequestHeader, Request, login_msg, new_order_msg, delete_order_msg, modify_order_msg, Response,
  LoginResponse,
}
use hftalgorithms.OrderEntry.{
  OeClient, send_new_order, send_new_order_no_wait, modify_order_by_id, delete_order_by_id,
  wait_for_response, wait_for_fill, cancel_all_live_orders,
}
use hftalgorithms.OrderEntry.Session.{log_in}

-- The constructor; `client_id_` has no value before the login.
unfoldable pub new_oe_client : ℕ → List (ℕ × Response) → OeClient
new_oe_client client_id inbox = record {
  session_id = 0;
  seq_num = 0;
  client_id = client_id;
  live_orders = [];
  inbox = inbox;
  sent = [];
  calls = [];
}

pub data Call : Type 0 where
  logs_in : List ℕ → List ℕ → ℕ → Option LoginResponse → Call
  sends sends_no_wait : ℕ → ℕ → Side → ℕ → ℤ → Call
  deletes awaits : ℕ → Call
  modifies : ℕ → Side → ℕ → ℤ → Call
  awaits_fill : ℕ → ℕ → Call
  cancels_all : Call

unfoldable pub step : Call → OeClient → OeClient
step (logs_in username password client answer) c = (log_in username password client answer c).1
step (sends id symbol side qty price) c = (send_new_order id symbol side qty price c).1
step (sends_no_wait id symbol side qty price) c = send_new_order_no_wait id symbol side qty price c
step (deletes id) c = (delete_order_by_id id c).1
step (awaits id) c = (wait_for_response id c).1
step (modifies id side qty price) c = (modify_order_by_id id side qty price c).1
step (awaits_fill now id) c = (wait_for_fill now id c).1
step cancels_all c = cancel_all_live_orders c

unfoldable pub run : List Call → OeClient → OeClient
run [] c = c
run (e ∷ es) c = run es (step e c)

-- The header with which a request's struct begins.
abbrev pub header_of : Request → RequestHeader
header_of (login_msg m) = m.header
header_of (new_order_msg m) = m.header
header_of (delete_order_msg m) = m.header
header_of (modify_order_msg m) = m.header

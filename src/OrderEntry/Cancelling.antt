-- ===== src/OrderEntry/Cancelling.antt =====
-- What `cancel_all_open_orders` of oe_client.cpp sends.
use hftalgorithms.Base.{ℕ, ◌≡◌, refl, List, [], ◌∷◌, ◌++◌, inl, inr, Option-cases, sym, ◌∙◌}
use mathlib.Core.List.{append-nil, append_assoc}
use hftalgorithms.Base.Int.{add_u32}
use hftalgorithms.OrderEntry.Protocol.{
  Response, acked, rejected, filled, order_closed, unhandled, Request, delete_order_msg,
  delete_order,
}
use hftalgorithms.OrderEntry.{
  OeClient, received, response_answer, await_response, wait_for_response, delete_order_by_id,
  delete_request, cancel_live, cancel_all_live_orders, send_raw,
}

-- One delete request per id, numbered on from a sequence number.
abbrev pub deletes_from : ℕ → ℕ → ℕ → List ℕ → List Request
deletes_from session client seq_num [] = []
deletes_from session client seq_num (id ∷ ids) =
    delete_order_msg (record {
      header = record {
        length = 28;
        msg_type = delete_order;
        version = 1;
        seq_num = add_u32 seq_num 1;
        client_id = client;
        session_id = session;
      };
      order_id = id;
    })
    ∷ deletes_from session client (add_u32 seq_num 1) ids

-- What waiting does not touch.
pub record IsQuiet (c out : OeClient) : Type 0 where
  pub sent : out.sent ≡ c.sent
  pub seq_num : out.seq_num ≡ c.seq_num
  pub client_id : out.client_id ≡ c.client_id
  pub session_id : out.session_id ≡ c.session_id

pub received-IsQuiet :
    (m : Response) (c out : OeClient) → IsQuiet (received m c) out → IsQuiet c out
unfolding received
received-IsQuiet (acked a) c out q = record {
  sent = q.sent;
  seq_num = q.seq_num;
  client_id = q.client_id;
  session_id = q.session_id;
}
received-IsQuiet (rejected r) c out q = record {
  sent = q.sent;
  seq_num = q.seq_num;
  client_id = q.client_id;
  session_id = q.session_id;
}
received-IsQuiet (filled f) c out q = record {
  sent = q.sent;
  seq_num = q.seq_num;
  client_id = q.client_id;
  session_id = q.session_id;
}
received-IsQuiet (order_closed o) c out q = record {
  sent = q.sent;
  seq_num = q.seq_num;
  client_id = q.client_id;
  session_id = q.session_id;
}
received-IsQuiet (unhandled u) c out q = q

pub left-IsQuiet : (c : OeClient) (ms : List (ℕ × Response)) → IsQuiet c (record c { inbox = ms })
left-IsQuiet c ms = record { sent = refl; seq_num = refl; client_id = refl; session_id = refl }

pub await_response-IsQuiet :
    (expected : ℕ) (ms : List (ℕ × Response)) (c : OeClient)
    → IsQuiet c (await_response expected ms c).1
unfolding await_response
await_response-IsQuiet expected [] c = left-IsQuiet c []
await_response-IsQuiet expected ((t, m) ∷ ms) c = elim (Option-cases (response_answer expected m)) [
  | inl e ↦
      rw (e, await_response)
        (received-IsQuiet m c (await_response expected ms (received m c)).1
          (await_response-IsQuiet expected ms (received m c)))
  | inr (answer, e) ↦
      rw (e, await_response)
        (received-IsQuiet m c (record (received m c) { inbox = ms })
          (left-IsQuiet (received m c) ms))
]

cancel_live-sent :
    (ids : List ℕ) (c : OeClient)
    → (cancel_live ids c).sent ≡ c.sent ++ deletes_from c.session_id c.client_id c.seq_num ids
unfolding cancel_live delete_order_by_id wait_for_response
cancel_live-sent [] c = sym (append-nil c.sent)
cancel_live-sent (id ∷ ids) c =
    let c' = send_raw (delete_request id c) c in
    let q = await_response-IsQuiet id c'.inbox c' in
    cancel_live-sent ids (await_response id c'.inbox c').1
    ∙ rw (q.sent, q.seq_num, q.client_id, q.session_id)
        (append_assoc c.sent (delete_request id c ∷ [])
          (deletes_from c.session_id c.client_id (add_u32 c.seq_num 1) ids))

-- Whatever the exchange answers, `cancel_all_open_orders` sends exactly one delete request for each
-- order that was live when it was called, in order, each under the session and with the next sequence
-- number, modulo 2 ^ 32.
pub cancel_all-sent :
    (c : OeClient)
    → (cancel_all_live_orders c).sent
      ≡ c.sent ++ deletes_from c.session_id c.client_id c.seq_num c.live_orders
unfolding cancel_all_live_orders
cancel_all-sent c = cancel_live-sent c.live_orders c

-- ===== src/OrderEntry/Tests.antt =====
-- A client with a few responses to come, and the theorems on oe_client.cpp at it.
use hftalgorithms.Base.{◌≡◌, [], ◌∷◌}
use hftalgorithms.Base.Int.{pos}
use hftalgorithms.OrderEntry.Protocol.{
  acked, filled, order_closed, closed, OrderClosed, LoginResponse, success,
}
use hftalgorithms.OrderEntry.{OeClient, wait_for_response, wait_for_fill, cancel_all_live_orders}
use hftalgorithms.OrderEntry.Waiting.{Took, nothing_lost}
use hftalgorithms.OrderEntry.Cancelling.{cancel_all-sent, deletes_from}

abbrev close_of_9 : OrderClosed
close_of_9 = record { order_id = 9 }

-- Order 4 is acknowledged and then filled.
abbrev filling : OeClient
filling = record {
  session_id = 77;
  seq_num = 3;
  client_id = 8;
  live_orders = 9 ∷ [];
  inbox =
      (100, acked (record { order_id = 4; exch_order_id = 1; quantity = 2; price = pos 50 }))
      ∷ (101, filled (record { order_id = 4; quantity = 2; price = pos 50; flags = closed }))
      ∷ (102, order_closed close_of_9)
      ∷ [];
  sent = [];
  calls = [];
}

abbrev closing : OeClient
closing = record filling { inbox = (100, order_closed close_of_9) ∷ [] }

nothing_lost_example :
    Took 4 filling (wait_for_response 4 filling).1 filling.inbox
    × Took 4 filling (wait_for_fill 100 4 filling).1 filling.inbox
nothing_lost_example = nothing_lost 100 4 4 filling

cancel_all-sent_example : (cancel_all_live_orders closing).sent ≡ deletes_from 77 8 3 (9 ∷ [])
cancel_all-sent_example = cancel_all-sent closing

abbrev welcome : LoginResponse
welcome = record { session_id = 5; status = success }

-- ===== src/OrderEntry/Wire/Tests.antt =====
-- Bytes of requests and responses, and the theorems on the socket at them.
use hftalgorithms.Base.{
  ◌≡◌, ◌↔◌, ◌⊎◌, ◌<◌, refl, inl, true, [], ◌∷◌, arith, List, ℕ, zero, suc, length, map,
}
use hftalgorithms.Base.Int.{pos, u32_of, add_u32}
use hftalgorithms.Base.Bytes.{Bytes, le, read_le, read_as}
use hftalgorithms.Base.Prefixes.{take, drop, concat}
use hftalgorithms.Messages.{buy}
use hftalgorithms.OrderEntry.{OeClient, wait_for_response, wait_for_fill}
use hftalgorithms.OrderEntry.Session.{log_in, login_request}
use hftalgorithms.OrderEntry.Protocol.{ack, acked, new_order, new_order_msg, login_msg}
use hftalgorithms.OrderEntry.Wire.{request_bytes, read_login_response, read_header}
use hftalgorithms.OrderEntry.Wire.Stream.{
  read_response, recv_all, overrun, length_field, wait_on_socket, fill_on_socket, log_in_on_socket,
  answered,
}
use hftalgorithms.OrderEntry.Wire.Framing.{read_response-overruns_iff}
use hftalgorithms.OrderEntry.Wire.RoundTrip.{Frame, IsFrame, frame_bytes}
use hftalgorithms.OrderEntry.Wire.Delivered.{Carries, Simulates}
use hftalgorithms.OrderEntry.Wire.Fills.{waits-Simulates}
use hftalgorithms.OrderEntry.Wire.Requests.{new_oe_client, Call, sends, cancels_all, run, header_of}
use hftalgorithms.OrderEntry.Wire.Orderly.{split, numbers}
use hftalgorithms.OrderEntry.Wire.Ordered.{requests_in_order}

-- An acknowledgement of order 1001.
abbrev ack_frame : Frame
ack_frame = record {
  header = record {
    length = 40;
    msg_type = ack;
    version = 1;
    seq_num = 7;
    last_seq_num = 2;
    client_id = 8;
  };
  response = acked (record { order_id = 1001; exch_order_id = 5; quantity = 3; price = pos 100 });
  more = [];
}

ack-IsFrame : IsFrame ack_frame
unfolding frame_bytes le
ack-IsFrame = record {
  header = record {
    length = omega arith;
    msg_type = omega arith;
    named = refl;
    version = omega arith;
    seq_num = omega arith;
    last_seq_num = omega arith;
    client_id = omega arith;
  };
  response = (omega arith, omega arith, omega arith, omega arith);
  msg_type = refl;
  length = refl;
  short = omega arith;
}

abbrev client : OeClient
client = new_oe_client 8 ((100, ack_frame.response) ∷ [])

-- Its bytes in two pieces.
abbrev pieces : List Bytes
pieces = take 10 (frame_bytes ack_frame) ∷ drop 10 (frame_bytes ack_frame) ∷ []

pieces_carry : Carries pieces client.inbox
unfolding frame_bytes le take drop new_oe_client
pieces_carry = record {
  spells = (ack_frame, ack-IsFrame, refl, ([], refl, inl (omega arith)));
  flowing = (omega arith, (omega arith, tt));
}

waits-Simulates_example :
    Simulates client (wait_on_socket 2 1001 pieces client) (wait_for_response 1001 client)
    × Simulates client
        (fill_on_socket 2 (λ n. 100) 1001 pieces client)
        (wait_for_fill 100 1001 client)
unfolding new_oe_client
waits-Simulates_example =
    waits-Simulates 2 1001 (λ n. 100) pieces client pieces_carry (refl, tt) (omega arith)

-- 257 bytes that begin with the length 257.
abbrev zeros : ℕ → Bytes
zeros zero = []
zeros (suc n) = 0 ∷ zeros n

abbrev long_pieces : List Bytes
long_pieces = (1 ∷ 1 ∷ zeros 255) ∷ []

read_response-overruns_iff_example :
    (read_response long_pieces ≡ overrun)
    ↔ (length_field (concat long_pieces) < 16) ⊎ (256 < length_field (concat long_pieces))
read_response-overruns_iff_example =
    read_response-overruns_iff long_pieces (omega arith) (omega arith) (omega arith, tt)

abbrev calls : List Call
calls = sends 1001 1 buy 3 (pos 100) ∷ cancels_all ∷ []

requests_in_order_example :
    let sent = (run calls (new_oe_client 8 client.inbox)).sent in
    (split (length sent) (concat (map request_bytes sent)) ≡ map request_bytes sent)
    × (map (λ r. (header_of r).seq_num) sent ≡ numbers (length sent))
requests_in_order_example = requests_in_order 8 client.inbox calls

test_request_bytes :
    request_bytes (
      new_order_msg (record {
        header = record {
          length = 42;
          msg_type = new_order;
          version = 1;
          seq_num = 258;
          client_id = 8;
          session_id = 77;
        };
        order_id = 1001;
        symbol = 2;
        side = buy;
        quantity = 3;
        price = pos 100;
        flags = 0;
      }))
    ≡ 42 ∷ 0 ∷ 1 ∷ 1 ∷ 2 ∷ 1 ∷ 0 ∷ 0 ∷ 8 ∷ 0 ∷ 0 ∷ 0 ∷ 77 ∷ 0 ∷ 0 ∷ 0 ∷ 0 ∷ 0 ∷ 0 ∷ 0 ∷ 233 ∷ 3 ∷ 0
      ∷ 0 ∷ 0 ∷ 0 ∷ 0 ∷ 0 ∷ 2 ∷ 0 ∷ 0 ∷ 0 ∷ 1 ∷ 3 ∷ 0 ∷ 0 ∷ 0 ∷ 100 ∷ 0 ∷ 0 ∷ 0 ∷ 0 ∷ []
unfolding request_bytes le u32_of
test_request_bytes = refl

-- An acknowledgement whose exchange order id ends in a zero byte is taken for a successful login.
test_log_in_takes_ack :
    log_in_on_socket [] [] 8
      (frame_bytes (record ack_frame {
        response =
            acked (record { order_id = 1001; exch_order_id = 256; quantity = 3; price = pos 100 });
      })
        ∷ [])
      client
    ≡ answered true
        (record client {
          session_id = 1001;
          seq_num = 1;
          sent = login_msg (login_request [] [] client) ∷ [];
        })
        []
unfolding log_in_on_socket read_response recv_all frame_bytes le u32_of take drop read_le
    read_login_response read_header read_as log_in new_oe_client add_u32
test_log_in_takes_ack = refl

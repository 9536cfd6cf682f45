-- ===== src/OrderEntry/Wire/Ordered.antt =====
-- The requests of a client as the bytes on its connection: their framing and their numbers.
use hftalgorithms.Base.{ℕ, ◌≡◌, refl, List, [], ◌∷◌, ◌++◌, map, arith, length, All}
use hftalgorithms.Base.Bytes.{Bytes, le, read_le}
use hftalgorithms.Base.Prefixes.{concat, take-append, drop-append}
use hftalgorithms.OrderEntry.Protocol.{
  Request, login_msg, new_order_msg, delete_order_msg, modify_order_msg, Response,
}
use hftalgorithms.OrderEntry.{OeClient}
use hftalgorithms.OrderEntry.Wire.{request_bytes}
use hftalgorithms.OrderEntry.Wire.Stream.{length_field}
use hftalgorithms.OrderEntry.Wire.Requests.{new_oe_client, Call, step, run, header_of}
use hftalgorithms.OrderEntry.Wire.Orderly.{split, numbers, IsFramed, IsOrderly, step-IsOrderly}

run-IsOrderly : (es : List Call) (c : OeClient) → IsOrderly c → IsOrderly (run es c)
unfolding run
run-IsOrderly [] c o = o
run-IsOrderly (e ∷ es) c o = run-IsOrderly es (step e c) (step-IsOrderly e c o)

length_field-request :
    (r : Request) (s : Bytes)
    → IsFramed r
    → length_field (request_bytes r ++ s) ≡ length (request_bytes r)
unfolding request_bytes read_le le
length_field-request (login_msg m) s h = omega (arith, h)
length_field-request (new_order_msg m) s h = omega (arith, h)
length_field-request (delete_order_msg m) s h = omega (arith, h)
length_field-request (modify_order_msg m) s h = omega (arith, h)

split-request_bytes :
    (rs : List Request)
    → All IsFramed rs
    → split (length rs) (concat (map request_bytes rs)) ≡ map request_bytes rs
split-request_bytes [] h = refl
split-request_bytes (r ∷ rs) h =
    let behind = concat (map request_bytes rs) in
    rw
      (
        length_field-request r behind h.0,
        take-append (request_bytes r) behind,
        drop-append (request_bytes r) behind,
        split-request_bytes rs h.1,
      )
      refl

-- Whatever a new client is called to do, and whatever it is answered, the bytes that it has sent fall
-- by the length in each header into exactly its requests, and these are numbered from 1 without a
-- gap, modulo 2 ^ 32.
pub requests_in_order :
    (client_id : ℕ) (inbox : List (ℕ × Response)) (es : List Call)
    → let sent = (run es (new_oe_client client_id inbox)).sent in
      (split (length sent) (concat (map request_bytes sent)) ≡ map request_bytes sent)
      × (map (λ r. (header_of r).seq_num) sent ≡ numbers (length sent))
unfolding new_oe_client
requests_in_order client_id inbox es =
    let o =
      run-IsOrderly es (new_oe_client client_id inbox)
        (record { framed = tt; numbered = refl; seq_num = omega arith }) in
    (split-request_bytes _ o.framed, o.numbered)

-- ===== src/OrderEntry/Wire/Orderly.antt =====
-- What holds of the requests of a client after each of its calls.
use hftalgorithms.Base.{
  ℕ, zero, suc, ◌+◌, ◌%◌, ◌<◌, ◌≡◌, refl, sym, ap, ◌∙◌, subst, Option, none, some, List, [], ◌∷◌,
  ◌++◌, map, arith, length, length-append, All, inl, inr, Option-cases, Bool-cases, ltb, true,
  false, Bool, if◌then◌else◌,
}
use hftalgorithms.Base.Int.{add_u32, u32_mod}
use hftalgorithms.Base.Bytes.{Bytes, le}
use hftalgorithms.Base.Prefixes.{take, drop}
use hftalgorithms.OrderEntry.Protocol.{Request, login_msg, Response, LoginResponse}
use hftalgorithms.OrderEntry.{
  OeClient, send_raw, send_new_order, send_new_order_no_wait, modify_order_by_id,
  delete_order_by_id, delete_request, wait_for_response, wait_for_fill, await_fill, fill_answer,
  received, cancel_live, cancel_all_live_orders,
}
use hftalgorithms.OrderEntry.Session.{log_in, copied, login_request, is_success}
use hftalgorithms.OrderEntry.Cancelling.{
  IsQuiet, received-IsQuiet, left-IsQuiet, await_response-IsQuiet,
}
use hftalgorithms.OrderEntry.Wire.{request_bytes}
use hftalgorithms.OrderEntry.Wire.Stream.{length_field}
use hftalgorithms.OrderEntry.Wire.Requests.{
  Call, logs_in, sends, sends_no_wait, deletes, awaits, modifies, awaits_fill, cancels_all, step,
  header_of,
}

-- What an exchange makes of so many requests' bytes if it goes by the length in each header.
abbrev pub split : ℕ → Bytes → List Bytes
split zero s = []
split (suc n) s = take (length_field s) s ∷ split n (drop (length_field s) s)

-- The numbers from 1, in 32 bits.
abbrev pub numbers : ℕ → List ℕ
numbers zero = []
numbers (suc n) = numbers n ++ suc n % u32_mod ∷ []

abbrev pub IsFramed : Request → Type 0
IsFramed r =
    ((header_of r).length ≡ length (request_bytes r)) × (length (request_bytes r) < 0x1_0000)

pub record IsOrderly (c : OeClient) : Type 0 where
  pub framed : All IsFramed c.sent
  pub numbered : map (λ r. (header_of r).seq_num) c.sent ≡ numbers (length c.sent)
  pub seq_num : c.seq_num ≡ length c.sent % u32_mod

quiet-IsOrderly : (c out : OeClient) → IsQuiet c out → IsOrderly c → IsOrderly out
quiet-IsOrderly c out q o = record {
  framed = subst (All IsFramed) (sym q.sent) o.framed;
  numbered = rw q.sent o.numbered;
  seq_num = rw (q.sent, q.seq_num) o.seq_num;
}

All-append {ℓ κ} :
    {A : Type ℓ} (P : A → Type κ) (xs ys : List A) → All P xs → All P ys → All P (xs ++ ys)
All-append P [] ys h k = k
All-append P (x ∷ xs) ys h k = (h.0, All-append P xs ys h.1 k)

map-append {ℓ κ} :
    {A : Type ℓ} {B : Type κ} (f : A → B) (xs ys : List A) → map f (xs ++ ys) ≡ map f xs ++ map f ys
map-append f [] ys = refl
map-append f (x ∷ xs) ys = ap (λ zs. f x ∷ zs) (map-append f xs ys)

length_snoc : (xs : List Request) (r : Request) → length (xs ++ r ∷ []) ≡ suc (length xs)
length_snoc xs r = rw (length-append xs (r ∷ [])) (omega arith)

send_raw-IsOrderly :
    (r : Request) (c : OeClient)
    → IsFramed r
    → (header_of r).seq_num ≡ add_u32 c.seq_num 1
    → IsOrderly c
    → IsOrderly (send_raw r c)
unfolding add_u32
send_raw-IsOrderly r c f e o = record {
  framed = All-append IsFramed c.sent (r ∷ []) o.framed (f, tt);
  numbered =
      map-append (λ m. (header_of m).seq_num) c.sent (r ∷ [])
      ∙ rw (o.numbered, length_snoc c.sent r, e, o.seq_num)
          (ap (λ n. numbers (length c.sent) ++ n ∷ []) (omega arith));
  seq_num = rw (length_snoc c.sent r, o.seq_num) (omega arith);
}

length-copied : (n : ℕ) (bytes : List ℕ) → length (copied n bytes) ≡ n
length-copied zero bytes = refl
length-copied (suc zero) bytes = refl
length-copied (suc (suc n)) [] = rw (length-copied (suc n) []) refl
length-copied (suc (suc n)) (b ∷ bytes) = rw (length-copied (suc n) bytes) refl

wait_for_response-IsOrderly :
    (id : ℕ) (c : OeClient) → IsOrderly c → IsOrderly (wait_for_response id c).1
unfolding wait_for_response
wait_for_response-IsOrderly id c o = quiet-IsOrderly c _ (await_response-IsQuiet id c.inbox c) o

pub await_fill-IsQuiet :
    (expected deadline : ℕ) (ms : List (ℕ × Response)) (c : OeClient)
    → IsQuiet c (await_fill expected deadline ms c).1
unfolding await_fill
await_fill-IsQuiet expected deadline [] c = left-IsQuiet c []
await_fill-IsQuiet expected deadline ((t, m) ∷ ms) c = elim (Bool-cases (ltb deadline t)) [
  | inl late ↦ rw (late, await_fill) (left-IsQuiet c ((t, m) ∷ ms))
  | inr early ↦ elim (Option-cases (fill_answer expected m)) [
    | inl e ↦
        rw (early, e, await_fill)
          (received-IsQuiet m c (await_fill expected deadline ms (received m c)).1
            (await_fill-IsQuiet expected deadline ms (received m c)))
    | inr (answer, e) ↦
        rw (early, e, await_fill)
          (received-IsQuiet m c (record (received m c) { inbox = ms })
            (left-IsQuiet (received m c) ms))
  ]
]

delete_order_by_id-IsOrderly :
    (id : ℕ) (c : OeClient) → IsOrderly c → IsOrderly (delete_order_by_id id c).1
unfolding delete_order_by_id request_bytes le
delete_order_by_id-IsOrderly id c o =
    wait_for_response-IsOrderly id _
      (send_raw-IsOrderly (delete_request id c) c (omega arith, omega arith) refl o)

cancel_live-IsOrderly : (ids : List ℕ) (c : OeClient) → IsOrderly c → IsOrderly (cancel_live ids c)
unfolding cancel_live
cancel_live-IsOrderly [] c o = o
cancel_live-IsOrderly (id ∷ ids) c o =
    cancel_live-IsOrderly ids _ (delete_order_by_id-IsOrderly id c o)

-- A client that differs only in what the order of its requests does not depend on.
session-IsOrderly :
    (c : OeClient) (session : ℕ) → IsOrderly c → IsOrderly (record c { session_id = session })
session-IsOrderly c session o = record {
  framed = o.framed;
  numbered = o.numbered;
  seq_num = o.seq_num;
}

client-IsOrderly :
    (c : OeClient) (client : ℕ) → IsOrderly c → IsOrderly (record c { client_id = client })
client-IsOrderly c client o = record {
  framed = o.framed;
  numbered = o.numbered;
  seq_num = o.seq_num;
}

login-IsFramed :
    (username password : List ℕ) (c : OeClient)
    → IsFramed (login_msg (login_request username password c))
unfolding request_bytes le
login-IsFramed username password c =
    let size : length (copied 16 username ++ (copied 16 password ++ [])) ≡ 32 =
      rw
        (
          length-append (copied 16 username) (copied 16 password ++ []),
          length-append (copied 16 password) [],
          length-copied 16 username,
          length-copied 16 password,
        )
        refl in
    (omega (arith, size), omega (arith, size))

asked-IsOrderly :
    (username password : List ℕ) (client : ℕ) (c : OeClient)
    → IsOrderly c
    → let c' = record c { client_id = client } in
      IsOrderly (send_raw (login_msg (login_request username password c')) c')
asked-IsOrderly username password client c o =
    let c' = record c { client_id = client } in
    send_raw-IsOrderly _ c' (login-IsFramed username password c') refl (client-IsOrderly c client o)

welcomed-IsOrderly :
    (t : Bool) (session : ℕ) (c : OeClient)
    → IsOrderly c
    → IsOrderly
        (if◌then◌else◌ {A = Bool × OeClient} t
          (true, record c { session_id = session })
          (false, c)).1
welcomed-IsOrderly true session c o = session-IsOrderly c session o
welcomed-IsOrderly false session c o = o

log_in-IsOrderly :
    (username password : List ℕ) (client : ℕ) (answer : Option LoginResponse) (c : OeClient)
    → IsOrderly c
    → IsOrderly (log_in username password client answer c).1
unfolding log_in
log_in-IsOrderly username password client none c o = asked-IsOrderly username password client c o
log_in-IsOrderly username password client (some r) c o =
    welcomed-IsOrderly (is_success r.status) r.session_id _
      (asked-IsOrderly username password client c o)

pub step-IsOrderly : (e : Call) (c : OeClient) → IsOrderly c → IsOrderly (step e c)
unfolding step send_new_order send_new_order_no_wait modify_order_by_id wait_for_fill
    cancel_all_live_orders request_bytes le
step-IsOrderly (logs_in username password client answer) c o =
    log_in-IsOrderly username password client answer c o
step-IsOrderly (sends id symbol side qty price) c o =
    wait_for_response-IsOrderly id _ (send_raw-IsOrderly _ c (omega arith, omega arith) refl o)
step-IsOrderly (sends_no_wait id symbol side qty price) c o =
    send_raw-IsOrderly _ c (omega arith, omega arith) refl o
step-IsOrderly (deletes id) c o = delete_order_by_id-IsOrderly id c o
step-IsOrderly (awaits id) c o = wait_for_response-IsOrderly id c o
step-IsOrderly (modifies id side qty price) c o =
    wait_for_response-IsOrderly id _ (send_raw-IsOrderly _ c (omega arith, omega arith) refl o)
step-IsOrderly (awaits_fill now id) c o =
    quiet-IsOrderly c _ (await_fill-IsQuiet id (now + 5000) c.inbox c) o
step-IsOrderly cancels_all c o = cancel_live-IsOrderly c.live_orders c o

-- ===== src/OrderEntry/Session.antt =====
-- The login of oe_client.cpp. What the socket delivers next is an argument; `none` is a read that
-- fails. A text is the list of its bytes before the terminating zero.
use hftalgorithms.Base.{
  ℕ, zero, suc, ◌≡◌, arith, if◌then◌else◌, Bool, true, false, Option, none, some, List, [], ◌∷◌,
}
use hftalgorithms.OrderEntry.Protocol.{
  Login, LoginResponse, LoginStatus, success, login, login_msg, delete_order,
}
use hftalgorithms.OrderEntry.{OeClient, next_header, send_raw}

-- A field of so many bytes, zeroed before, into which `strncpy` copies all but one.
abbrev pub copied : ℕ → List ℕ → List ℕ
copied zero bytes = []
copied (suc zero) bytes = 0 ∷ []
copied (suc (suc n)) [] = 0 ∷ copied (suc n) []
copied (suc (suc n)) (b ∷ bytes) = b ∷ copied (suc n) bytes

abbrev pub is_success : LoginStatus → Bool
is_success success = true
is_success _ = false

abbrev pub login_request : List ℕ → List ℕ → OeClient → Login
login_request username password c = record {
  header = record (next_header 52 login c) { session_id = 0 };
  username = copied 16 username;
  password = copied 16 password;
}

unfoldable pub log_in : List ℕ → List ℕ → ℕ → Option LoginResponse → OeClient → Bool × OeClient
log_in username password client_id answer c =
    let c' = record c { client_id = client_id } in
    let sent = send_raw (login_msg (login_request username password c')) c' in
    elim answer [
      | none ↦ (false, sent)
      | some r ↦
          if is_success r.status
          then (true, record sent { session_id = r.session_id })
          else (false, sent)
    ]

-- A login succeeds exactly if the exchange answers with success, and the next request then carries
-- the session that the exchange gave; otherwise the session stays what it was.
log_in-session :
    (username password : List ℕ) (client : ℕ) (r : LoginResponse) (c : OeClient)
    → ((log_in username password client (some r) c).0 ≡ is_success r.status)
      × ((next_header 28 delete_order (log_in username password client (some r) c).1).session_id
          ≡ (if is_success r.status then r.session_id else c.session_id))
unfolding log_in
log_in-session username password client r c = ground arith

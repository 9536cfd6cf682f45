-- ===== src/OrderEntry/Wire/Welcome.antt =====
-- The login on the connection's bytes.
use hftalgorithms.Base.{
  ℕ, ◌<◌, ◌≡◌, refl, ◌∙◌, sym, subst, some, List, [], ◌∷◌, ◌++◌, arith, length,
}
use hftalgorithms.Base.Bytes.{
  Bytes, le, read_le, limit, packed, Reads, >>=-Reads, pure-Reads, read_le-Reads, read_as-Reads,
}
use mathlib.Core.List.{append-nil}
use hftalgorithms.Base.Prefixes.{concat}
use hftalgorithms.OrderEntry.Protocol.{
  ResponseHeader, LoginResponse, LoginStatus, success, invalid_username, invalid_password,
  invalid_session, session_already_active, status_duplicate_login, invalid_client_id, other_status,
}
use hftalgorithms.OrderEntry.{OeClient}
use hftalgorithms.OrderEntry.Session.{log_in}
use hftalgorithms.OrderEntry.Wire.{read_login_response, status_of}
use hftalgorithms.OrderEntry.Wire.Stream.{log_in_on_socket, ended, length_field}
use hftalgorithms.OrderEntry.Wire.Framing.{IsFlowing}
use hftalgorithms.OrderEntry.Wire.RoundTrip.{header_bytes, IsHeader, header-Reads}
use hftalgorithms.OrderEntry.Wire.Delivered.{read_whole}

abbrev status_code : LoginStatus → ℕ
status_code success = 0
status_code invalid_username = 5
status_code invalid_password = 6
status_code invalid_session = 7
status_code session_already_active = 8
status_code status_duplicate_login = 9
status_code invalid_client_id = 10
status_code (other_status n) = n

login_bytes : ResponseHeader → LoginResponse → Bytes
login_bytes h r = packed (header_bytes h ∷ le 8 r.session_id ∷ le 1 (status_code r.status) ∷ [])

record IsWelcome (h : ResponseHeader) (r : LoginResponse) : Type 0 where
  pub header : IsHeader h
  pub length : h.length ≡ 25
  pub session_id : r.session_id < limit 8
  pub status : status_code r.status < 256
  pub named : status_of (status_code r.status) ≡ r.status

login-Reads :
    (h : ResponseHeader) (r : LoginResponse)
    → IsWelcome h r
    → Reads read_login_response (login_bytes h r) r
unfolding read_login_response login_bytes
login-Reads h r i = >>=-Reads _ (header-Reads h i.header) (
    >>=-Reads _ (read_le-Reads 8 r.session_id i.session_id) (
      >>=-Reads _ (read_as-Reads status_of (status_code r.status) r.status i.status i.named)
        (pure-Reads r)))

length_field-login :
    (h : ResponseHeader) (r : LoginResponse) (s : Bytes)
    → IsWelcome h r
    → length_field (login_bytes h r ++ s) ≡ h.length
unfolding login_bytes read_le le
length_field-login h r s i = omega (arith, i.length)

length-login : (h : ResponseHeader) (r : LoginResponse) → length (login_bytes h r) ≡ 25
unfolding login_bytes le
length-login h r = omega arith

-- A login response, in whatever pieces it arrives, has the client log in as with the session and the
-- status in it, and what comes behind it stays on the socket.
log_in_on_socket-login :
    (username password : List ℕ) (client : ℕ) (h : ResponseHeader) (r : LoginResponse) (s : Bytes)
    (pieces : List Bytes) (c : OeClient)
    → IsWelcome h r
    → concat pieces ≡ login_bytes h r ++ s
    → IsFlowing pieces
    → (rest : List Bytes) × (log_in_on_socket username password client pieces c
        ≡ ended (log_in username password client (some r) c) rest)
      × (concat rest ≡ s)
unfolding log_in_on_socket
log_in_on_socket-login username password client h r s pieces c i e f =
    let (rest, done, left, flows) =
      read_whole 25 (login_bytes h r) s pieces (length_field-login h r s i ∙ i.length)
        (sym (length-login h r)) (omega arith, omega arith) e f in
    let read : read_login_response (login_bytes h r) ≡ some (r, []) =
      subst (λ xs. read_login_response xs ≡ some (r, [])) (append-nil (login_bytes h r))
        ((login-Reads h r i).reads []) in
    (rest, rw (log_in_on_socket, done, read) refl, left)

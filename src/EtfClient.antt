-- ===== src/EtfClient.antt =====
-- etf_client.h and etf_client.cpp: the client of the ETF service. The network is a function from a
-- request to the response's text, empty on any error; it is a parameter.
mod Base64
mod Response
mod Holdings
mod Url
pub mod Transport
mod Tests
use hftalgorithms.Base.{
  ℕ, zero, suc, ◌+◌, ◌-◌, ◌*◌, ◌/◌, ◌%◌, ◌^◌, Bool, true, false, Option, none, some, List, [], ◌∷◌,
  ◌++◌, ◌||◌, ◌&&◌, ltb, leb, ◌==◌, if◌then◌else◌, length,
}
use hftalgorithms.Base.Int.{ℤ, pos, negsuc, u32_mod}
use hftalgorithms.Base.Text.{Text, codes, strip, find, has, to_string, to_string_ℕ, stoi}

pub record EtfResult : Type 0 where
  pub success : Bool
  pub message : Text
  pub undy_balance : ℤ

pub record EtfClient : Type 0 where
  pub host : Text
  pub port : Text
  pub team_name : Text
  pub password : Text

abbrev dropped : Text → Text → Text
dropped prefix s = elim (strip prefix s) [ none ↦ s | some rest ↦ rest ]

-- The host and the port.
unfoldable pub parse_base_url : Text → Text × Text
parse_base_url base_url =
    let url = dropped (codes "http://") base_url in
    elim (find (codes ":") url) [ none ↦ (url, codes "80") | some parts ↦ parts ]

-- The constructor.
unfoldable pub new_client : Text → Text → Text → EtfClient
new_client base_url team_name password = record {
  host = (parse_base_url base_url).0;
  port = (parse_base_url base_url).1;
  team_name = team_name;
  password = password;
}

-- The entry of the table at an index below 64.
abbrev pub table : ℕ → ℕ
table i =
    if ltb i 26
    then b'A' + i
    else if ltb i 52
    then b'a' + (i - 26)
    else if ltb i 62
    then b'0' + (i - 52)
    else if i == 62
    then b'+'
    else b'/'

-- The variables of the encoder's loop. `val` is an int whose sums wrap, and of which only the lowest
-- bits are read; `held` is `valb + 6`, the number of its bits that have not been written.
pub record Encoder : Type 0 where
  pub out : Text
  pub val : ℕ
  pub held : ℕ

-- The loop `while (valb >= 0)`, on fuel.
pub write_out : ℕ → Encoder → Encoder
write_out zero e = e
write_out (suc fuel) e =
    let rest =
      write_out fuel (record e {
        out = e.out ++ table (e.val / 2 ^ (e.held - 6) % 64) ∷ [];
        held = e.held - 6;
      }) in
    if leb 6 e.held then rest else e

-- The loop over the bytes: a round writes at most twice, since at most 4 bits are left before it.
pub encode_bytes : Text → Encoder → Encoder
encode_bytes [] e = e
encode_bytes (c ∷ s) e =
    encode_bytes s (write_out 2 (record e { val = (e.val * 256 + c) % u32_mod; held = e.held + 8 }))

abbrev pub pad : ℕ → Text
pad zero = []
pad (suc n) = b'=' ∷ pad n

-- The bits left over, and then `=` up to a multiple of four.
pub finish : Encoder → Text
finish e =
    let out =
      (if ltb 0 e.held
        then e.out ++ table (e.val * 256 % u32_mod / 2 ^ (e.held + 2) % 64) ∷ []
        else e.out) in
    out ++ pad ((4 - length out % 4) % 4)

pub base64_encode : Text → Text
base64_encode input = finish (encode_bytes input (record { out = []; val = 0; held = 0 }))

pub extract_body : Text → Text
extract_body response = elim (find (codes "\r\n\r\n") response) [
  | none ↦ response
  | some (headers, body) ↦ body
]

-- The message, or the whole body where none is found.
pub message_of : Text → Text
message_of body = elim (find (codes "\"message\":\"") body) [
  | none ↦ body
  | some (before, rest) ↦ elim (find (codes "\"") rest) [ none ↦ body | some (m, behind) ↦ m ]
]

abbrev pub without_blanks : Text → Text
without_blanks [] = []
without_blanks (c ∷ s) = if c == b' ' then without_blanks s else c ∷ s

pub balance_of : Text → ℤ
balance_of body = elim (find (codes "\"undy_balance\":") body) [
  | none ↦ negsuc 0
  | some (before, rest) ↦ elim (stoi (without_blanks rest)) [ none ↦ negsuc 0 | some n ↦ n ]
]

pub parse_response : Text → Bool → EtfResult
parse_response body http_ok =
    if http_ok
    then if has (codes "\"success\":true") body
      then record { success = true; message = message_of body; undy_balance = balance_of body }
      else if has (codes "\"success\":false") body
      then record { success = false; message = message_of body; undy_balance = balance_of body }
      else record {
        success = false;
        message = codes "Unparseable response: " ++ body;
        undy_balance = negsuc 0;
      }
    else record { success = false; message = codes "HTTP error: " ++ body; undy_balance = negsuc 0 }

abbrev amount_body : ℤ → Text
amount_body amount = codes "{\"amount\":" ++ (to_string amount ++ codes "}")

pub post_request : Text → ℤ → EtfClient → Text
post_request endpoint amount c =
    codes "POST "
    ++ (endpoint
        ++ (codes " HTTP/1.0\r\nHost: "
            ++ (c.host
                ++ (codes ":"
                    ++ (c.port
                        ++ (codes "\r\nAuthorization: Basic "
                            ++ (base64_encode (c.team_name ++ (codes ":" ++ c.password))
                                ++ (codes "\r\nContent-Type: application/json\r\nContent-Length: "
                                    ++ (to_string_ℕ (length (amount_body amount))
                                        ++ (codes "\r\nConnection: close\r\n\r\n"
                                            ++ amount_body amount))))))))))

-- What `post_amount` makes of the response.
pub result_of : Text → EtfResult
result_of [] = record {
  success = false;
  message = codes "No response from ETF service";
  undy_balance = negsuc 0;
}
result_of (c ∷ s) =
    let response = c ∷ s in
    let http_ok = has (codes "HTTP/1.0 200") response || has (codes "HTTP/1.1 200") response in
    elim (extract_body response) [
      | [] ↦ record {
        success = false;
        message = codes "Empty response body";
        undy_balance = negsuc 0;
      }
      | b ∷ body ↦ parse_response (b ∷ body) http_ok
    ]

pub post_amount : (Text → Text) → Text → ℤ → EtfClient → EtfResult
post_amount network endpoint amount c = result_of (network (post_request endpoint amount c))

pub create : (Text → Text) → ℤ → EtfClient → EtfResult
create network = post_amount network (codes "/create")

pub redeem : (Text → Text) → ℤ → EtfClient → EtfResult
redeem network = post_amount network (codes "/redeem")

abbrev is_empty : Text → Bool
is_empty [] = true
is_empty (c ∷ s) = false

-- The end of the requests that carry no body.
abbrev pub get_request : Text → EtfClient → Text
get_request path c =
    codes "GET "
    ++ (path
        ++ (codes " HTTP/1.0\r\nHost: "
            ++ (c.host ++ (codes ":" ++ (c.port ++ codes "\r\nConnection: close\r\n\r\n")))))

unfoldable pub health_check : (Text → Text) → EtfClient → Bool
health_check network c =
    let response = network (get_request (codes "/health") c) in
    if is_empty response then false else has (codes "200") response && has (codes "\"ok\"") response

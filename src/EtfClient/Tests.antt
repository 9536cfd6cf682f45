-- ===== src/EtfClient/Tests.antt =====
-- Runs of the client of the ETF service, and the theorems about it at concrete texts.
use hftalgorithms.Base.{◌≡◌, refl, true, false, if◌then◌else◌, some, List, [], ◌∷◌, arith}
use hftalgorithms.Base.Int.{ℤ, pos, negsuc}
use hftalgorithms.Base.Text.{Text, codes, find, strip, to_string, to_string_ℕ, digits, stoi, has}
use hftalgorithms.Base.Text.Search.{lacks-Lacks}
use hftalgorithms.EtfClient.{EtfClient, EtfResult}
use hftalgorithms.EtfClient.Base64.{base64_encode-by_groups, by_groups}
use hftalgorithms.EtfClient.Response.{post_amount-response, response}
use hftalgorithms.EtfClient.Holdings.{read_positions_enough}
use hftalgorithms.EtfClient.Holdings.Listed.{
  get_positions-holdings, holdings_response, value_at, last_value,
}
use hftalgorithms.EtfClient
use hftalgorithms.EtfClient.Holdings
use hftalgorithms.Base.Text
use hftalgorithms.EtfClient.Transport.{
  Network, send_http_request, reaches, holds, send_http_request_all_paths,
}
use hftalgorithms.Base.Prefixes.{concat}

abbrev group : EtfClient
group = record {
  host = codes "10.0.0.1";
  port = codes "5000";
  team_name = codes "group8";
  password = codes "pw";
}

test_new_client :
    EtfClient.new_client (codes "http://10.0.0.1:5000") (codes "group8") (codes "pw") ≡ group
unfolding EtfClient.new_client EtfClient.parse_base_url find strip
test_new_client = refl

test_default_port : EtfClient.parse_base_url (codes "10.0.0.1") ≡ (codes "10.0.0.1", codes "80")
unfolding EtfClient.parse_base_url find strip
test_default_port = refl

test_base64_encode : EtfClient.base64_encode (codes "group8:pw") ≡ codes "Z3JvdXA4OnB3"
unfolding EtfClient.base64_encode EtfClient.encode_bytes EtfClient.write_out EtfClient.finish
test_base64_encode = refl

test_get_positions :
    Holdings.get_positions
      (λ _.
        codes "HTTP/1.0 200 OK\r\n\r\n{\"client_id\":8,\"positions\":{\"GOLD\":7, \"BLUE\":-4}}")
      (pos 8)
      group
    ≡ some ((codes "GOLD", pos 7) ∷ (codes "BLUE", negsuc 3) ∷ [])
unfolding Holdings.get_positions Holdings.read_positions Holdings.position_block
    EtfClient.extract_body Holdings.set_position find strip stoi Text.after_spaces Text.skip_spaces
    Text.signed Text.scan
test_get_positions = refl

test_create :
    EtfClient.create (λ _. codes "HTTP/1.0 400 BAD\r\n\r\nno") (pos 5) group
    ≡ record { success = false; message = codes "HTTP error: no"; undy_balance = negsuc 0 }
unfolding EtfClient.create EtfClient.post_amount EtfClient.result_of EtfClient.extract_body
    EtfClient.parse_response find strip has
test_create = refl

test_redeem : EtfClient.redeem (λ _. codes "HTTP/1.0 200 OK\r\n\r\n{}") (pos 5) group ≡ record {
  success = false;
  message = codes "Unparseable response: {}";
  undy_balance = negsuc 0;
}
unfolding EtfClient.redeem EtfClient.post_amount EtfClient.result_of EtfClient.extract_body
    EtfClient.parse_response find strip has
test_redeem = refl

test_health_check :
    EtfClient.health_check (λ _. codes "HTTP/1.0 200 OK\r\n\r\n{\"status\":\"ok\"}") group ≡ true
unfolding EtfClient.health_check find strip has
test_health_check = refl

base64_encode-by_groups_example :
    EtfClient.base64_encode (b'g' ∷ b'8' ∷ b':' ∷ b'p' ∷ [])
    ≡ by_groups (b'g' ∷ b'8' ∷ b':' ∷ b'p' ∷ [])
base64_encode-by_groups_example =
    base64_encode-by_groups (b'g' ∷ b'8' ∷ b':' ∷ b'p' ∷ [])
      (ground arith, (ground arith, (ground arith, (ground arith, tt))))

-- The service answers every request with success and the balance 10.
abbrev service : Text → Text
service request = response true (codes "Created 5 UNDY") (pos 10)

post_amount-response_example :
    EtfClient.post_amount service (codes "/create") (pos 5) group
    ≡ record { success = true; message = codes "Created 5 UNDY"; undy_balance = pos 10 }
post_amount-response_example =
    post_amount-response service (codes "/create") (pos 5) group true (codes "Created 5 UNDY")
      (pos 10) (lacks-Lacks b'"' (codes "Created 5 UNDY") refl) (ground arith) refl

-- GOLD is listed twice, and its last value counts.
abbrev listed : List (Text × ℤ)
listed = (codes "GOLD", pos 7) ∷ (codes "BLUE", negsuc 3) ∷ (codes "GOLD", pos 9) ∷ []

test_last_value : last_value (codes "GOLD") listed ≡ some (pos 9)
test_last_value = refl

get_positions-holdings_example :
    (m : List (Text × ℤ)) × (Holdings.get_positions
        (λ request. holdings_response (pos 8) listed)
        (pos 8)
        group
      ≡ some m)
    × ((k : Text) → value_at k m ≡ last_value k listed)
get_positions-holdings_example =
    get_positions-holdings (λ request. holdings_response (pos 8) listed) (pos 8) group listed
      (
        (lacks-Lacks b'"' (codes "GOLD") refl, ground arith),
        (
          (lacks-Lacks b'"' (codes "BLUE") refl, ground arith),
          ((lacks-Lacks b'"' (codes "GOLD") refl, ground arith), tt),
        ),
      )
      (
        lacks-Lacks b'}' (codes "GOLD") refl,
        (lacks-Lacks b'}' (codes "BLUE") refl, (lacks-Lacks b'}' (codes "GOLD") refl, tt)),
      )
      refl

-- A service that answers in two pieces.
abbrev answering : Network
answering = record {
  resolves = λ host port. true;
  opens = true;
  connects = true;
  sends = λ request. true;
  replies = λ request. codes "HTTP/1.0 " ∷ codes "200 OK" ∷ [];
}

send_http_request_all_paths_example :
    ((send_http_request answering group (codes "GET /health")).0 ≡ (
      if reaches answering group (codes "GET /health")
      then concat (codes "HTTP/1.0 " ∷ codes "200 OK" ∷ [])
      else []))
    × (holds (send_http_request answering group (codes "GET /health")).1 0 0 ≡ true)
send_http_request_all_paths_example =
    send_http_request_all_paths answering group (codes "GET /health")
      (omega arith, (omega arith, tt))

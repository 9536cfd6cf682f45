-- ===== src/EtfClient/Response.antt =====
-- The answers of the ETF service that etf_client.cpp reads.
use hftalgorithms.Base.{
  ◌≡◌, refl, Bool, true, false, none, some, [], ◌++◌, ◌∷◌, arith, if◌then◌else◌, ◌∙◌,
}
use hftalgorithms.Base.Int.{ℤ, IsI32, negsuc}
use hftalgorithms.Base.Text.{Text, codes, strip, find, has, to_string, stoi, stoi-to_string}
use hftalgorithms.Base.Text.Search.{
  Lacks, lacks-Lacks, find-skip, find-skip_none, strip-quoted, to_string-Lacks,
}
use mathlib.Core.List.{append-nil}
use hftalgorithms.EtfClient.{
  parse_response, message_of, balance_of, without_blanks, EtfClient, result_of, extract_body,
  post_amount, post_request,
}

-- The end of the text that the service answers with, from behind its first quotation mark.
abbrev ending : Text → Text → Text
ending message number =
    codes "message\":\"" ++ (message ++ (codes "\", \"undy_balance\":" ++ (number ++ codes "}")))

-- The text that the service answers with.
abbrev pub answer : Bool → Text → Text → Text
answer success message number =
    (if success then codes "{\"success\":true, \"" else codes "{\"success\":false, \"")
    ++ ending message number

module _ (message number : Text) (quiet : Lacks b'"' message) (plain : Lacks b'"' number) where
  abbrev behind : Text
  behind = codes ", \"undy_balance\":" ++ (number ++ codes "}")

  number_only : (ps : Text) → find (b'"' ∷ ps) (number ++ codes "}") ≡ none
  number_only ps =
      find-skip_none b'"' ps number (codes "}") plain (unfold find in unfold strip in refl)

  no_true : find (codes "\"success\":true") (codes "\"" ++ behind) ≡ none
  unfolding find strip
  no_true = rw (number_only (codes "success\":true"), find) refl

  is_true : has (codes "\"success\":true") (answer true message number) ≡ true
  unfolding has find strip
  is_true = refl

  is_false : has (codes "\"success\":false") (answer false message number) ≡ true
  unfolding has find strip
  is_false = refl

  not_true : has (codes "\"success\":true") (answer false message number) ≡ false
  unfolding has find strip
  not_true =
      rw
        (
          strip-quoted b'"' (codes "success") message (codes ":true") behind
              (lacks-Lacks b'"' (codes "success") refl) quiet refl,
          find-skip_none b'"' (codes "success\":true") message (codes "\"" ++ behind) quiet no_true,
          has,
          find,
          strip,
        )
        refl

  read_message : (success : Bool) → message_of (answer success message number) ≡ message
  unfolding message_of find strip
  read_message true =
      rw
        (
          find-skip b'"' [] message (codes "\"" ++ behind) [] behind quiet refl,
          append-nil message,
          message_of,
          find,
          strip,
        )
        refl
  read_message false =
      rw
        (
          find-skip b'"' [] message (codes "\"" ++ behind) [] behind quiet refl,
          append-nil message,
          message_of,
          find,
          strip,
        )
        refl

  closed : strip (codes "undy_balance\":") (message ++ (codes "\"" ++ behind)) ≡ none
  unfolding strip
  closed =
      strip-quoted b'"' (codes "undy_balance") message (codes ":") behind
        (lacks-Lacks b'"' (codes "undy_balance") refl) quiet refl

  found :
      find (codes "\"undy_balance\":") (message ++ (codes "\"" ++ behind))
      ≡ some (message ++ codes "\", ", number ++ codes "}")
  found =
      find-skip b'"' (codes "undy_balance\":") message (codes "\"" ++ behind) (codes "\", ")
        (number ++ codes "}") quiet (unfold find in unfold strip in refl)

  read_number :
      (success : Bool)
      → balance_of (answer success message number)
        ≡ elim (stoi (without_blanks (number ++ codes "}"))) [ none ↦ negsuc 0 | some n ↦ n ]
  unfolding balance_of find strip
  read_number true = rw (closed, found, balance_of, find, strip) refl
  read_number false = rw (closed, found, balance_of, find, strip) refl

no_blanks : (s : Text) → Lacks b' ' s → without_blanks (s ++ codes "}") ≡ s ++ codes "}"
no_blanks [] h = refl
no_blanks (c ∷ s) h = ground (arith, h.0)

read_answer :
    (success : Bool) (message number : Text) (balance : ℤ)
    → Lacks b'"' message
    → Lacks b'"' number
    → balance_of (answer success message number) ≡ balance
    → parse_response (answer success message number) true
      ≡ record { success = success; message = message; undy_balance = balance }
unfolding parse_response
read_answer true message number balance quiet plain e =
    rw (is_true message number quiet plain, read_message message number quiet plain true, e) refl
read_answer false message number balance quiet plain e =
    rw
      (
        not_true message number quiet plain,
        is_false message number quiet plain,
        read_message message number quiet plain false,
        e,
      )
      refl

-- The answers that the service gives are read back: whether it succeeded, the message and the
-- balance, for every message without a quotation mark and every balance of an int32_t.
parse_response-round_trip :
    (success : Bool) (message : Text) (balance : ℤ)
    → Lacks b'"' message
    → IsI32 balance
    → parse_response (answer success message (to_string balance)) true
      ≡ record { success = success; message = message; undy_balance = balance }
parse_response-round_trip success message balance quiet h =
    let number = to_string balance in
    let plain = to_string-Lacks b'"' balance (ground arith) in
    let value = no_blanks number (to_string-Lacks b' ' balance (ground arith)) in
    read_answer success message number balance quiet plain (
      read_number message number quiet plain success
      ∙ rw (value, stoi-to_string balance (codes "}") h refl) refl)

-- A response of status 200 with one header.
abbrev pub response : Bool → Text → ℤ → Text
response success message balance =
    codes "HTTP/1.0 200 OK\r\nContent-Type: application/json\r\n\r\n"
    ++ answer success message (to_string balance)

result_of-response :
    (success : Bool) (message : Text) (balance : ℤ)
    → result_of (response success message balance)
      ≡ parse_response (answer success message (to_string balance)) true
unfolding result_of extract_body has find strip
result_of-response true message balance = refl
result_of-response false message balance = refl

-- When the service answers `post_amount` with status 200, one header and its JSON text, where the
-- message has no quotation mark and the balance is an int32_t, the caller gets whether it succeeded,
-- the message and the balance, whatever was asked for.
pub post_amount-response :
    (network : Text → Text) (endpoint : Text) (amount : ℤ) (c : EtfClient) (success : Bool)
    (message : Text) (balance : ℤ)
    → Lacks b'"' message
    → IsI32 balance
    → network (post_request endpoint amount c) ≡ response success message balance
    → post_amount network endpoint amount c
      ≡ record { success = success; message = message; undy_balance = balance }
unfolding post_amount
post_amount-response network endpoint amount c success message balance quiet h e = rw e (
    result_of-response success message balance
    ∙ parse_response-round_trip success message balance quiet h)

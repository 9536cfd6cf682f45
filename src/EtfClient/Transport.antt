-- ===== src/EtfClient/Transport.antt =====
-- `send_http_request` of etf_client.cpp: the network of the ETF client, over the calls of the
-- operating system. Their results are a parameter; the calls that take or give back a resource are
-- recorded in the order in which they are made.
use hftalgorithms.Base.{
  ℕ, zero, suc, ◌≡◌, refl, ap, Bool, true, false, List, [], ◌∷◌, ◌++◌, ◌&&◌, if◌then◌else◌, All,
  ◌<◌, length, arith,
}
use hftalgorithms.Base.Int.{ℤ, negsuc}
use hftalgorithms.Base.Text.{Text, codes, has}
use hftalgorithms.Base.Prefixes.{concat}
use hftalgorithms.EtfClient.{
  EtfClient, post_amount, result_of, post_request, health_check, is_empty, get_request,
}

-- What the calls give for one request: whether the address is found, a socket made, the connection
-- made and `send` no error, and the pieces that the calls of `recv` return.
pub record Network : Type 0 where
  pub resolves : Text → Text → Bool
  pub opens : Bool
  pub connects : Bool
  pub sends : Text → Bool
  pub replies : Text → List Text

pub data Action : Type 0 where
  gets_address frees_address opens_socket closes_socket : Action

-- The loop that reads the response; it ends where `recv` gives nothing.
pub read_reply : List Text → Text
read_reply [] = []
read_reply ([] ∷ pieces) = []
read_reply ((c ∷ piece) ∷ pieces) = (c ∷ piece) ++ read_reply pieces

pub send_http_request : Network → EtfClient → Text → Text × List Action
send_http_request net c request =
    if net.resolves c.host c.port
    then if net.opens
      then if net.connects
        then if net.sends request
          then (
            read_reply (net.replies request),
            gets_address ∷ opens_socket ∷ frees_address ∷ closes_socket ∷ [],
          )
          else ([], gets_address ∷ opens_socket ∷ frees_address ∷ closes_socket ∷ [])
        else ([], gets_address ∷ opens_socket ∷ frees_address ∷ closes_socket ∷ [])
      else ([], gets_address ∷ frees_address ∷ [])
    else ([], [])

-- The network that the other requests go through.
abbrev pub through : Network → EtfClient → Text → Text
through net c request = (send_http_request net c request).0

-- How many addresses and sockets are held after these calls; `none` where one is given back twice.
abbrev pub holds : List Action → ℕ → ℕ → Bool
holds [] zero zero = true
holds [] a s = false
holds (gets_address ∷ rest) a s = holds rest (suc a) s
holds (frees_address ∷ rest) zero s = false
holds (frees_address ∷ rest) (suc a) s = holds rest a s
holds (opens_socket ∷ rest) a s = holds rest a (suc s)
holds (closes_socket ∷ rest) a zero = false
holds (closes_socket ∷ rest) a (suc s) = holds rest a s

-- The whole request can be sent.
abbrev pub reaches : Network → EtfClient → Text → Bool
reaches net c request =
    net.resolves c.host c.port && (net.opens && (net.connects && net.sends request))

read_reply-concat :
    (pieces : List Text) → All (λ p. 0 < length p) pieces → read_reply pieces ≡ concat pieces
unfolding read_reply
read_reply-concat [] h = refl
read_reply-concat ([] ∷ pieces) h = ground (arith, h.0)
read_reply-concat ((c ∷ piece) ∷ pieces) h =
    ap (λ s. (c ∷ piece) ++ s) (read_reply-concat pieces h.1)

-- A request gives the pieces of the reply put together if every call succeeds, and an empty text
-- otherwise; on each path the address and the socket are given back exactly once.
pub send_http_request_all_paths :
    (net : Network) (c : EtfClient) (request : Text)
    → All (λ p. 0 < length p) (net.replies request)
    → ((send_http_request net c request).0
        ≡ (if reaches net c request then concat (net.replies request) else []))
      × (holds (send_http_request net c request).1 0 0 ≡ true)
unfolding send_http_request
send_http_request_all_paths net c request h =
    ground (arith, read_reply-concat (net.replies request) h)

through_fails :
    (net : Network) (c : EtfClient) (request : Text)
    → reaches net c request ≡ false
    → through net c request ≡ []
unfolding send_http_request
through_fails net c request h = ground (arith, h)

-- Where a call fails, `create` and `redeem` answer that there is no response, with balance -1, and
-- the health check answers false.
pub unreachable_is_reported :
    (net : Network) (c : EtfClient) (endpoint : Text) (amount : ℤ)
    → ((request : Text) → reaches net c request ≡ false)
    → (post_amount (through net c) endpoint amount c ≡ record {
      success = false;
      message = codes "No response from ETF service";
      undy_balance = negsuc 0;
    })
      × (health_check (through net c) c ≡ false)
unfolding post_amount health_check send_http_request result_of
unreachable_is_reported net c endpoint amount h = (
  ap result_of (through_fails net c (post_request endpoint amount c) (h _)),
  ap
      (λ response.
        if is_empty response
        then false
        else has (codes "200") response && has (codes "\"ok\"") response)
      (through_fails net c (get_request (codes "/health") c) (h _)),
)

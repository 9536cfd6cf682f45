-- ===== src/Program.antt =====
-- main.cpp: the program's start, from the saved positions to the strategy's loop. What the start
-- finds is a record; the market data thread is the feed of the strategy's world.
mod Starting
mod Tests
use hftalgorithms.Base.{
  ℕ, Bool, true, false, Option, none, some, List, [], if◌then◌else◌, not, ◌&&◌,
}
use hftalgorithms.Base.Int.{ℤ, pos}
use hftalgorithms.Base.Double.{Double}
use hftalgorithms.Base.Text.{Text, codes}
use hftalgorithms.OrderEntry.{OeClient}
use hftalgorithms.OrderEntry.Protocol.{LoginResponse, Response}
use hftalgorithms.OrderEntry.Session.{log_in}
use hftalgorithms.OrderEntry.Wire.Requests.{new_oe_client}
use hftalgorithms.EtfClient.{EtfClient, new_client, health_check}
use hftalgorithms.Symbols.{SymbolManager, init}
use hftalgorithms.Symbols.File.{load_positions, save_positions}
use hftalgorithms.EtfArb.{Bot, World, Outcome, fault, ◌>>◌, pause}
use hftalgorithms.EtfArb.Market.{run_with_mm}

-- Whether a multicast socket can be made, bound and joined to its group.
pub record Multicast : Type 0 where
  pub opens : Bool
  pub binds : Bool
  pub joins : Bool

-- The text of positions.txt, the calls of `connect` that succeed, the answer to the login, and what
-- the exchange sends later. `client_id_` has some value before the login.
pub record Setting : Type 0 where
  pub positions : Text
  pub opens_socket : Bool
  pub is_accepted : Bool
  pub live : Multicast
  pub replay : Multicast
  pub welcome : Option LoginResponse
  pub inbox : List (ℕ × Response)
  pub password : Text
  pub unset_id : ℕ

-- `faulty` is an index with no slot, `exits` a return from `main`.
pub data Start (D : Type 0) : Type 0 where
  faulty : Start D
  exits : ℕ → Start D
  starts : Bot D → Start D

-- `lost` is an index with no slot.
pub data Ended (D : Type 0) : Type 0 where
  lost : Ended D
  returned : ℕ → Ended D
  ended : Outcome (Unit {0} × Bot D) → Ended D

-- `OEClient::connect`
pub connect : Setting → Bool
connect s = s.opens_socket && s.is_accepted

-- `create_multicast_socket`, where it does not exit.
unfoldable pub create_multicast_socket : Multicast → Bool
create_multicast_socket m = m.opens && (m.binds && m.joins)

-- The start of `run_listener`: a socket that cannot be made exits the program with code 1.
unfoldable pub listens : Setting → Bool
listens s = create_multicast_socket s.live && create_multicast_socket s.replay

abbrev pub etf_url : Text
etf_url = codes "http://129.74.160.245:5000"

abbrev pub team_name : Text
team_name = codes "group8"

abbrev pub exchange_client_id : ℕ
exchange_client_id = 8

abbrev pub blue_tick : ℕ
blue_tick = 5

-- The constructor of `ETFArb`.
abbrev pub new_arb : {D : Type 0} → SymbolManager D → OeClient → EtfClient → Bot D
new_arb sm oe etf = record {
  sm = sm;
  oe = oe;
  etf = etf;
  order_map = [];
  mm_order_map = [];
  next_order_id = 1000;
  arb_in_progress = false;
  arb_start_time = 0;
  blue_bid_id = 0;
  blue_ask_id = 0;
  pauses = 0;
  readings = 0;
}

module _ {D : Type 0} ⦃d : Double D⦄ (w : World) where
  pub logged_in : Setting → SymbolManager D → Bool × OeClient → Start D
  logged_in s sm (ok, oe) =
      let etf = new_client etf_url team_name s.password in
      if not ok
      then exits 1
      else if not (health_check w.network etf)
      then exits 1
      else starts (new_arb sm oe etf)

  -- `main` up to the construction of the strategy.
  unfoldable pub start : Setting → Start D
  start s = elim (load_positions s.positions (init {D = D})) [
    | none ↦ faulty
    | some sm ↦
        if not (connect s)
        then exits 1
        else logged_in s sm (
            log_in team_name s.password exchange_client_id s.welcome
              (new_oe_client s.unset_id s.inbox))
  ]

  -- The rest of it: a wait for the books, and the strategy's loop for so many rounds.
  pub trade : ℕ → ℕ → Bot D → Outcome (Unit {0} × Bot D)
  trade fuel rounds = pause w >> run_with_mm w fuel (pos 7) blue_tick rounds

  pub main : ℕ → ℕ → Setting → Ended D
  main fuel rounds s = elim (start s) [
    | faulty ↦ lost
    | exits code ↦ returned code
    | starts b ↦ if listens s then ended (trade fuel rounds b) else returned 1
  ]

module _ {D : Type 0} ⦃d : Double D⦄ where
  -- The handler of SIGINT: what it writes to positions.txt.
  pub interrupt : Bot D → Option Text
  interrupt b = save_positions b.sm

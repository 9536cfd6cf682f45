-- ===== src/EtfArb/Making.antt =====
-- The rules of `Safe` through the loop of etf_arb.cpp that also makes a market in BLUE.
use hftalgorithms.Base.{
  ℕ, zero, suc, ◌≡◌, true, false, List, [], ◌∷◌, All, arith, if◌then◌else◌, ◌==◌,
}
use hftalgorithms.Base.Int.{ℤ}
use hftalgorithms.Base.Double.{Double}
use hftalgorithms.Base.Dict.{insert_keeps}
use hftalgorithms.Messages.{Side}
use hftalgorithms.Symbols.{dorm_ids, sym_undy, ids}
use hftalgorithms.Symbols.Cache.{IsListed}
use hftalgorithms.EtfArb.{M, Bot, World, fault, sets, flatten}
use hftalgorithms.EtfArb.Loops.{near_limit}
use hftalgorithms.EtfArb.Market.{
  Quotes, sym_blue, delete_bid, delete_ask, quote, guard_quotes, cover_short, quote_bid, quote_ask,
  move_quotes, requote, make_market, no_longs, arbitrage, mm_round, mm_rounds, run_with_mm,
}
use hftalgorithms.EtfArb.Safe.{
  IsSafe, IsFair, IsSound, EndsSound, safe_rules, >>=-IsSafe, >>-IsSafe, pure-IsSafe, if-IsSafe,
  sets-IsSafe, cached-IsSafe, for_each-IsSafe,
}
use hftalgorithms.EtfArb.Basic.{
  position-IsSafe, entering-IsSafe, is_flat-IsSafe, flatten-IsSafe, pause-IsSafe, await_flat-IsSafe,
}
use hftalgorithms.EtfArb.Runs.{
  dorms-IsListed, ids-IsListed, undy-IsListed, cancel_all-IsSafe, check_timeout-IsSafe, look-IsSafe,
}

blue-IsListed : IsListed sym_blue
blue-IsListed = (omega arith, omega arith)

module _ {D : Type 0} ⦃d : Double D⦄ where
  bid_id-IsSafe : (oid : ℕ) → IsSafe {D = D} (sets λ b. record b { blue_bid_id = oid })
  bid_id-IsSafe oid = record {
    ends = λ b s. record { ready = s.ready; arb_orders = s.arb_orders; mm_orders = s.mm_orders };
  }

  ask_id-IsSafe : (oid : ℕ) → IsSafe {D = D} (sets λ b. record b { blue_ask_id = oid })
  ask_id-IsSafe oid = record {
    ends = λ b s. record { ready = s.ready; arb_orders = s.arb_orders; mm_orders = s.mm_orders };
  }

  delete_bid-IsSafe : IsSafe {D = D} delete_bid
  unfolding delete_bid
  delete_bid-IsSafe = search (safe_rules, entering-IsSafe, bid_id-IsSafe) depth 9

  delete_ask-IsSafe : IsSafe {D = D} delete_ask
  unfolding delete_ask
  delete_ask-IsSafe = search (safe_rules, entering-IsSafe, ask_id-IsSafe) depth 9

  quote-IsSafe :
      (oid : ℕ) (side : Side) (qty : ℕ) (price : ℤ) → IsSafe {D = D} (quote oid side qty price)
  unfolding quote
  quote-IsSafe oid side qty price =
      >>-IsSafe
        (sets-IsSafe _ (λ b s. record {
          ready = s.ready;
          arb_orders = s.arb_orders;
          mm_orders =
              insert_keeps (λ t. IsListed t.0) oid (sym_blue, side) b.mm_order_map blue-IsListed
                s.mm_orders;
        }))
        (>>=-IsSafe (entering-IsSafe _) (λ _. pure-IsSafe tt))

  guard_quotes-IsSafe : (mm_limit position : ℤ) → IsSafe {D = D} (guard_quotes mm_limit position)
  unfolding guard_quotes
  guard_quotes-IsSafe mm_limit position =
      search (safe_rules, delete_bid-IsSafe, delete_ask-IsSafe) depth 9

  cover_short-IsSafe : (position : ℤ) (q : Quotes) → IsSafe {D = D} (cover_short position q)
  unfolding cover_short
  cover_short-IsSafe position q = search (safe_rules, quote-IsSafe, blue-IsListed) depth 12

  quote_bid-IsSafe :
      (mm_limit mid : ℤ) (tick oid : ℕ) → IsSafe {D = D} (quote_bid mm_limit mid tick oid)
  unfolding quote_bid
  quote_bid-IsSafe mm_limit mid tick oid =
      search (safe_rules, position-IsSafe, blue-IsListed, bid_id-IsSafe, quote-IsSafe) depth 12

  quote_ask-IsSafe :
      (mm_limit mid : ℤ) (tick oid : ℕ) → IsSafe {D = D} (quote_ask mm_limit mid tick oid)
  unfolding quote_ask
  quote_ask-IsSafe mm_limit mid tick oid =
      search (safe_rules, position-IsSafe, blue-IsListed, ask_id-IsSafe, quote-IsSafe) depth 12

  move_quotes-IsSafe :
      (mm_limit : ℤ) (tick : ℕ) (mid : ℤ) (q : Quotes)
      → IsSafe {D = D} (move_quotes mm_limit tick mid q)
  unfolding move_quotes
  move_quotes-IsSafe mm_limit tick mid q =
      search (safe_rules, delete_bid-IsSafe, delete_ask-IsSafe, quote_bid-IsSafe, quote_ask-IsSafe)
        depth 16

  tick-IsSafe :
      (tick : ℕ) (m : M D Quotes)
      → (tick == 0) ≡ false
      → IsSafe m
      → IsSafe {D = D} (if tick == 0 then (λ b. fault) else m)
  tick-IsSafe tick m h k = rw h k

  requote-IsSafe :
      (mm_limit : ℤ) (tick : ℕ) (q : Quotes)
      → (tick == 0) ≡ false
      → IsSafe {D = D} (requote mm_limit tick q)
  unfolding requote
  requote-IsSafe mm_limit tick q h = >>=-IsSafe (cached-IsSafe _ sym_blue blue-IsListed) (λ bid.
      >>=-IsSafe (cached-IsSafe _ sym_blue blue-IsListed) (λ ask.
        if-IsSafe _ (tick-IsSafe tick _ h (move_quotes-IsSafe mm_limit tick _ q)) (pure-IsSafe q)))

  make_market-IsSafe :
      (mm_limit : ℤ) (tick : ℕ) (q : Quotes)
      → (tick == 0) ≡ false
      → IsSafe {D = D} (make_market mm_limit tick q)
  unfolding make_market
  make_market-IsSafe mm_limit tick q h =
      >>=-IsSafe (position-IsSafe sym_blue blue-IsListed) (λ position.
        >>-IsSafe (guard_quotes-IsSafe mm_limit position)
          (>>=-IsSafe (cover_short-IsSafe position q) (λ q'. requote-IsSafe mm_limit tick q' h)))

  no_longs-IsSafe : (js : List ℕ) → All IsListed js → IsSafe {D = D} (no_longs js)
  unfolding no_longs
  no_longs-IsSafe [] h = pure-IsSafe true
  no_longs-IsSafe (id ∷ js) h =
      >>=-IsSafe (position-IsSafe id h.0)
        (λ position. if-IsSafe _ (pure-IsSafe false) (no_longs-IsSafe js h.1))

module _ {D : Type 0} ⦃d : Double D⦄ (w : World) (fair : IsFair w) where
  arbitrage-IsSafe : (fuel : ℕ) → IsSafe {D = D} (arbitrage w fuel)
  unfolding arbitrage
  arbitrage-IsSafe fuel =
      search
        (
          safe_rules,
          no_longs-IsSafe dorm_ids dorms-IsListed,
          is_flat-IsSafe (sym_undy ∷ []) (undy-IsListed, tt),
          for_each-IsSafe dorm_ids flatten dorms-IsListed flatten-IsSafe,
          check_timeout-IsSafe w fair,
          look-IsSafe w fair,
        )
        depth 16

  mm_round-IsSafe :
      (fuel : ℕ) (mm_limit : ℤ) (tick : ℕ) (q : Quotes)
      → (tick == 0) ≡ false
      → IsSafe {D = D} (mm_round w fuel mm_limit tick q)
  unfolding mm_round near_limit
  mm_round-IsSafe fuel mm_limit tick q h =
      search
        (
          safe_rules,
          delete_bid-IsSafe,
          delete_ask-IsSafe,
          cancel_all-IsSafe,
          for_each-IsSafe ids flatten ids-IsListed flatten-IsSafe,
          await_flat-IsSafe w fair,
          arbitrage-IsSafe,
          make_market-IsSafe mm_limit tick q h,
        )
        depth 16

  mm_rounds-IsSafe :
      (fuel : ℕ) (mm_limit : ℤ) (tick rounds : ℕ) (q : Quotes)
      → (tick == 0) ≡ false
      → IsSafe {D = D} (mm_rounds w fuel mm_limit tick rounds q)
  unfolding mm_rounds
  mm_rounds-IsSafe fuel mm_limit tick zero q h = >>-IsSafe delete_bid-IsSafe delete_ask-IsSafe
  mm_rounds-IsSafe fuel mm_limit tick (suc rounds) q h =
      >>=-IsSafe (mm_round-IsSafe fuel mm_limit tick q h)
        (λ q'. >>-IsSafe (pause-IsSafe w fair) (mm_rounds-IsSafe fuel mm_limit tick rounds q' h))

  -- From a bot whose manager has its thirteen slots and whose orders are all for symbols with one,
  -- `run_with_mm` never uses an index without a slot, whatever the exchange, the ETF service and the
  -- clock do, if the feed is for listed symbols and the tick is not zero; and where it ends, the
  -- caches are right and the orders are still for symbols with a slot.
  pub run_with_mm-EndsSound :
      (fuel : ℕ) (mm_limit : ℤ) (tick rounds : ℕ) (b : Bot D)
      → (tick == 0) ≡ false
      → IsSound b
      → EndsSound (run_with_mm w fuel mm_limit tick rounds b)
  unfolding run_with_mm
  run_with_mm-EndsSound fuel mm_limit tick rounds b h s =
      (mm_rounds-IsSafe fuel mm_limit tick rounds _ h).ends b s

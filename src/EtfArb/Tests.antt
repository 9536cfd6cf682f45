-- ===== src/EtfArb/Tests.antt =====
-- A bot before its first trade, and the theorems on etf_arb.cpp at it.
use hftalgorithms.Base.{◌≡◌, refl, false, [], ◌∷◌, arith, ◌↔◌, All, ◌*◌, if◌then◌else◌}
use hftalgorithms.Base.Int.{ℤ, pos, ◌≤ℤ◌, wrap32, i32_of, u32_of, ◌+ℤ◌, ◌-ℤ◌}
use hftalgorithms.Base.Double.{exact}
use hftalgorithms.Base.Text.{codes}
use hftalgorithms.Base.Dict.{lookup, insert}
use mathlib.Core.Option.{none-ne-some}
use hftalgorithms.Symbols.{init, ids, get_position, make_slots}
use hftalgorithms.Symbols.Cache.{init-IsReady}
use hftalgorithms.Symbols.Nav.{ArbSnapshot, DormData}
use hftalgorithms.EtfArb.{Bot, World, done, waiting, await_flat}
use hftalgorithms.EtfArb.Trades.{
  creation_qty, creation_bounds, redemption_qty, redemption_bounds, await_fills,
}
use hftalgorithms.EtfArb.Market.{run_with_mm, blue_mid_of}
use hftalgorithms.EtfArb.Safe.{IsFair, IsSound, EndsSound}
use hftalgorithms.EtfArb.Making.{run_with_mm-EndsSound}
use hftalgorithms.EtfArb.Sizes.{IsModest, IsBuyable, IsSellable, creation_qty_iff}
use hftalgorithms.EtfArb.Waits.{flat_of, await_flat-stuck, await_fills-times_out}
use hftalgorithms.EtfArb.Loops.{run}
use hftalgorithms.EtfArb.Numbers.{EndsGrowing}
use hftalgorithms.EtfArb.Issued.{run-EndsGrowing}

abbrev start : Bot ℤ
start = record {
  sm = init;
  oe = record {
    session_id = 77;
    seq_num = 0;
    client_id = 8;
    live_orders = [];
    inbox = [];
    sent = [];
    calls = [];
  };
  etf = record {
    host = codes "10.0.0.1";
    port = codes "5000";
    team_name = codes "group8";
    password = codes "pw";
  };
  order_map = [];
  mm_order_map = [];
  next_order_id = 1000;
  arb_in_progress = false;
  arb_start_time = 0;
  blue_bid_id = 0;
  blue_ask_id = 0;
  pauses = 0;
  readings = 0;
}

-- No feed arrives, the clock goes on by 100 ms at each reading, and the service does not answer.
abbrev quiet : World
quiet = record { market = λ n. []; clock = λ n. 100 * n; network = λ request. [] }

quiet-IsFair : IsFair quiet
quiet-IsFair n = tt

start-IsSound : IsSound start
unfolding lookup
start-IsSound = record {
  ready = init-IsReady;
  arb_orders = λ oid t e. absurd (none-ne-some t e);
  mm_orders = λ oid t e. absurd (none-ne-some t e);
}

run_with_mm-EndsSound_example : EndsSound (run_with_mm quiet 9 (pos 5) 10 3 start)
run_with_mm-EndsSound_example =
    run_with_mm-EndsSound quiet quiet-IsFair 9 (pos 5) 10 3 start refl start-IsSound

await_flat-stuck_example :
    await_flat quiet 5 start ≡ (if flat_of ids start.sm then done (tt, start) else waiting)
await_flat-stuck_example = await_flat-stuck quiet quiet-IsFair 4 start start-IsSound

-- Two lots of each dorm are needed, and there are none.
await_fills-times_out_example :
    (b' : Bot ℤ) × (await_fills quiet 9 500 (pos 2) start ≡ done (false, b'))
unfolding get_position init make_slots lookup insert
await_fills-times_out_example =
    await_fills-times_out quiet quiet-IsFair 9 500 6 (pos 2) start start-IsSound refl (omega arith)
      (omega arith)

-- A dorm and the ETF as a snapshot shows them.
abbrev seen : DormData
seen = record {
  best_bid_price = pos 10;
  best_ask_price = pos 11;
  best_bid_qty = 6;
  best_ask_qty = 4;
  position = pos 6;
}

abbrev snap : ArbSnapshot
snap = record {
  sums = record {
    dorms = seen ∷ [];
    nav_ask = pos 11;
    nav_bid = pos 10;
    any_dorm_ask_missing = false;
    any_dorm_bid_missing = false;
  };
  undy = seen;
}

-- Three lots: the dorm has six of nine.
test_creation_qty : creation_qty snap ≡ pos 3
unfolding creation_qty creation_bounds wrap32 i32_of u32_of ◌+ℤ◌ ◌-ℤ◌
test_creation_qty = refl

test_redemption_qty : redemption_qty snap ≡ pos 3
unfolding redemption_qty redemption_bounds wrap32 i32_of u32_of ◌+ℤ◌ ◌-ℤ◌
test_redemption_qty = refl

test_blue_mid_of : blue_mid_of (pos 103) (pos 124) 10 ≡ pos 110
unfolding blue_mid_of wrap32 i32_of u32_of ◌+ℤ◌
test_blue_mid_of = refl

seen-IsModest : All IsModest (seen ∷ seen ∷ [])
seen-IsModest = ground arith

creation_qty_iff_example :
    (pos 3 ≤ℤ creation_qty snap) ↔ (IsSellable (pos 3) seen × All (IsBuyable (pos 3)) (seen ∷ []))
creation_qty_iff_example = creation_qty_iff (pos 3) snap seen-IsModest

run-EndsGrowing_example : EndsGrowing 1000 (run quiet 3 2 start)
run-EndsGrowing_example = run-EndsGrowing quiet 3 2 1000 start (omega arith)

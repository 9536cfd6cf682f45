-- ===== src/Symbols/Tests.antt =====
-- A manager with a few orders and fills, and the theorems on symbol_manager.cpp at it.
use hftalgorithms.Base.{ℕ, ◌≡◌, refl, true, false, some, List, [], ◌∷◌, arith}
use hftalgorithms.Base.Int.{ℤ, pos, negsuc, ◌+ℤ◌, wrap32}
use hftalgorithms.Base.Double.{exact}
use hftalgorithms.Base.Dict.{lookup}
use hftalgorithms.Messages.{buy, MdHeader, NewOrder, new_order}
use hftalgorithms.Symbols.{SymbolManager, SymbolSlot, new_slot, init, on_fill, dorm_ids}
use hftalgorithms.Symbols.Cache.{
  Event, adds, deletes, fills, resets, loads, Succeeds, run, run-IsReady, init-IsReady,
}
use hftalgorithms.Symbols.Nav.{
  ArbSnapshot, DormSums, snapshot, snapshot_sums, IsSummed, slots_read, read_dorms, add_dorm,
  read_slot, IsPriced,
}
use hftalgorithms.Symbols.Profit.{cover_books_nothing}

abbrev header : MdHeader
header = record { magic_number = 0; length = 0; seq_num = 4; timestamp = 0; msg_type = new_order }

abbrev bid : NewOrder
bid = record {
  header = header;
  order_id = 11;
  symbol = 3;
  side = buy;
  quantity = 5;
  price = pos 100;
  flags = 0;
}

abbrev events : List Event
events =
    adds 3 bid
    ∷ fills 3 buy 2 (pos 101)
    ∷ deletes 3 (record { header = header; order_id = 11 })
    ∷ loads ((13, negsuc 2) ∷ [])
    ∷ resets 13
    ∷ []

run-IsReady_example : Succeeds (run events (init {D = ℤ}))
run-IsReady_example = run-IsReady events (init {D = ℤ}) (omega arith) init-IsReady

-- Ten dorms with asks of 7 and no bids, and a short position in UNDY.
abbrev asking : ℕ → SymbolSlot
asking id = record (new_slot id) { best_ask_price = pos 7; best_ask_qty = 1 }

abbrev short : SymbolSlot
short = record (new_slot 13) { position = negsuc 2 }

abbrev manager : SymbolManager ℤ
manager = record {
  slots =
      (3, asking 3)
      ∷ (4, asking 4)
      ∷ (5, asking 5)
      ∷ (6, asking 6)
      ∷ (7, asking 7)
      ∷ (8, asking 8)
      ∷ (9, asking 9)
      ∷ (10, asking 10)
      ∷ (11, asking 11)
      ∷ (12, asking 12)
      ∷ (13, short)
      ∷ [];
  total_pnl = pos 20;
  avg_entry_price = [];
}

cover_books_nothing_example :
    (m' : SymbolManager ℤ) × (on_fill 13 buy 2 (pos 70) manager ≡ some m') × (m'.total_pnl ≡ pos 20)
unfolding lookup
cover_books_nothing_example =
    cover_books_nothing 13 2 (pos 70) manager short refl (omega arith) (omega arith) (omega arith)

abbrev asked : DormSums
asked = record {
  dorms = slots_read dorm_ids manager;
  nav_ask = pos 70;
  nav_bid = pos 0;
  any_dorm_ask_missing = false;
  any_dorm_bid_missing = true;
}

abbrev snap : ArbSnapshot
snap = record { sums = asked; undy = read_slot short }

taken : snapshot manager ≡ some snap
unfolding snapshot read_dorms add_dorm lookup wrap32 ◌+ℤ◌
taken = refl

manager-IsPriced : IsPriced manager
unfolding lookup
manager-IsPriced id s e = ground (arith, e)

snapshot_sums_example : IsSummed asked × (slots_read dorm_ids manager ≡ slots_read dorm_ids manager)
snapshot_sums_example = snapshot_sums manager snap manager-IsPriced taken

-- ===== src/Listener/Tests.antt =====
-- A listener that catches up, and the theorem on listener.cpp at it.
use hftalgorithms.Base.{refl, true, none, some, List, [], ◌∷◌, arith}
use hftalgorithms.Base.Int.{ℤ, pos}
use hftalgorithms.Base.Double.{exact}
use hftalgorithms.Messages.{MdHeader, NewOrder, SnapshotInfo, buy}
use hftalgorithms.Messages
use hftalgorithms.Symbols
use hftalgorithms.Symbols.Cache.{init-IsReady}
use hftalgorithms.Listener.{
  market, snapshots, new_order, info, order, Poll, ready, timed_out, live_sock, replay_sock, run,
  init,
}
use hftalgorithms.Listener.Arrivals.{arrivals}
use hftalgorithms.Listener.Explained.{RunsOn}
use hftalgorithms.Listener.Order.{run-RunsOn}
use hftalgorithms.Listener.Listed.{EndsSound}
use hftalgorithms.Listener.Sound.{run-EndsSound, init-IsSound}

abbrev header : MdHeader
header = record {
  magic_number = 0;
  length = 40;
  seq_num = 4;
  timestamp = 0;
  msg_type = Messages.new_order;
}

abbrev bid : NewOrder
bid = record {
  header = header;
  order_id = 11;
  symbol = 3;
  side = buy;
  quantity = 5;
  price = pos 100;
  flags = 0;
}

abbrev shown : SnapshotInfo
shown = record { header = header; symbol = 3; bid_count = 1; ask_count = 0; last_md_seq_num = 9 }

-- A live order that is kept, a snapshot with an order, and a silence.
abbrev pub polls : List Poll
polls =
    ready ((live_sock, some (market (new_order (record bid { order_id = 12 })))) ∷ [])
    ∷ ready (
        (replay_sock, some (snapshots (info shown ∷ order true bid ∷ [])))
        ∷ (replay_sock, none)
        ∷ [])
    ∷ timed_out
    ∷ []

run-EndsSound_example : EndsSound (Symbols.init {D = ℤ}) (run polls (init (Symbols.init {D = ℤ})))
run-EndsSound_example =
    run-EndsSound polls (init (Symbols.init {D = ℤ})) (ground arith) (init-IsSound init-IsReady)

run-RunsOn_example :
    RunsOn (init (Symbols.init {D = ℤ})) (arrivals polls) (run polls (init (Symbols.init {D = ℤ})))
run-RunsOn_example =
    run-RunsOn polls (init (Symbols.init {D = ℤ})) (ground arith)
      (record { plain = tt; clear = λ c. refl })

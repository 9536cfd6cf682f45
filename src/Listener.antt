-- ===== src/Listener.antt =====
-- listener.h and listener.cpp: the market data listener. A datagram is what its bytes read as; a
-- snapshot is the items that the loops come to, each header's length leading to the next. A run is a
-- list of what `epoll_wait` returns.
pub mod Datagram
pub mod Listed
pub mod Sound
mod Same
mod Arrivals
mod Explained
mod Order
pub mod Tests
use hftalgorithms.Base.{
  ℕ, zero, suc, ◌+◌, ◌-◌, ◌%◌, Bool, true, false, Option, none, some, List, [], ◌∷◌, ◌++◌, ◌==◌,
  ◌&&◌, if◌then◌else◌, ltb, length, not,
}
use hftalgorithms.Base.Int.{add_u32, u32_mod}
use hftalgorithms.Base.Dict.{Dict, lookup, insert, erase}
use hftalgorithms.Messages.{NewOrder, DeleteOrder, ModifyOrder, Trade, SnapshotInfo}
use hftalgorithms.Symbols.{
  SymbolManager, on_new_order, on_delete_order, on_modify_order, on_trade, reset_book,
}

-- A message under MAGIC_NUMBER, by its `msg_type`.
pub data Message : Type 0 where
  new_order : NewOrder → Message
  delete_order : DeleteOrder → Message
  modify_order : ModifyOrder → Message
  trade : Trade → Message
  heartbeat other_message : Message

-- What stands at an offset of a snapshot: an order says if its bytes end within the datagram.
pub data Item : Type 0 where
  info : SnapshotInfo → Item
  order : Bool → NewOrder → Item
  other_item : Item

-- A datagram by its magic number.
pub data Packet : Type 0 where
  market : Message → Packet
  snapshots : List Item → Packet
  foreign : Packet

pub data Source : Type 0 where
  live_sock replay_sock : Source

-- What `epoll_wait` returns, and what the reads of its events give: `none` where no byte is read.
pub data Poll : Type 0 where
  failed timed_out : Poll
  ready : List (Source × Option Packet) → Poll

pub record Listener (D : Type 0) : Type 0 where
  pub sm : SymbolManager D
  pub order_to_symbol : Dict ℕ
  pub live_buffer : List Packet
  pub caught_up : Bool
  pub received_snapshot : Bool
  pub messages_processed : ℕ
  pub no_replay_count : ℕ

-- `stopped` is a return of `run_listener`; `fault` is an index with no slot.
pub data Status (D : Type 0) : Type 0 where
  running : Listener D → Status D
  stopped : Listener D → Status D
  fault : Status D

-- The loop that removes the orders of a symbol.
pub drop_symbol : ℕ → Dict ℕ → Dict ℕ
drop_symbol symbol [] = []
drop_symbol symbol ((oid, s) ∷ m) =
    if s == symbol then drop_symbol symbol m else (oid, s) ∷ drop_symbol symbol m

abbrev pub is_live : Source → Bool
is_live live_sock = true
is_live replay_sock = false

module _ {D : Type 0} where
  abbrev pub handled : Option (SymbolManager D) → Listener D → Status D
  handled none l = fault
  handled (some m) l = running (record l { sm = m })

  infixl 5 ◌>>=◌
  abbrev pub ◌>>=◌ : Status D → (Listener D → Status D) → Status D
  running l >>= f = f l
  stopped l >>= f = stopped l
  fault >>= f = fault

  pub dispatch_new_order : NewOrder → Listener D → Status D
  dispatch_new_order msg l =
      handled (on_new_order msg.symbol msg l.sm)
        (record l { order_to_symbol = insert msg.order_id msg.symbol l.order_to_symbol })

  pub dispatch_delete_order : DeleteOrder → Listener D → Status D
  dispatch_delete_order msg l = elim (lookup msg.order_id l.order_to_symbol) [
    | none ↦ running l
    | some symbol ↦
        handled (on_delete_order symbol msg l.sm)
          (record l { order_to_symbol = erase msg.order_id l.order_to_symbol })
  ]

  pub dispatch_modify_order : ModifyOrder → Listener D → Status D
  dispatch_modify_order msg l = elim (lookup msg.order_id l.order_to_symbol) [
    | none ↦ running l
    | some symbol ↦ handled (on_modify_order symbol msg l.sm) l
  ]

  pub dispatch_trade : Trade → Listener D → Status D
  dispatch_trade msg l = elim (lookup msg.order_id l.order_to_symbol) [
    | none ↦ running l
    | some symbol ↦ handled (on_trade symbol msg l.sm) l
  ]

  pub dispatch : Message → Listener D → Status D
  dispatch (new_order msg) l = dispatch_new_order msg l
  dispatch (delete_order msg) l = dispatch_delete_order msg l
  dispatch (modify_order msg) l = dispatch_modify_order msg l
  dispatch (trade msg) l = dispatch_trade msg l
  dispatch heartbeat l = running l
  dispatch other_message l = running l

  -- The loop that drains the buffer.
  pub drain : List Packet → Listener D → Status D
  drain [] l = running (record l { live_buffer = [] })
  drain (market msg ∷ rest) l = dispatch msg l >>= drain rest
  drain (snapshots items ∷ rest) l = drain rest l
  drain (foreign ∷ rest) l = drain rest l

  pub begin_symbol : ℕ → Listener D → Status D
  begin_symbol symbol l = handled (reset_book symbol l.sm) (record l {
    order_to_symbol = drop_symbol symbol l.order_to_symbol;
    received_snapshot = true;
    no_replay_count = 0;
  })

  -- The two loops over a snapshot: `left` is how many orders the inner one may still read, and 0 in
  -- the outer one, which begins a symbol and goes into the inner one, or ends.
  pub read_snapshot : List Item → ℕ → Listener D → Status D
  read_snapshot [] left l = running l
  read_snapshot (info s ∷ rest) left l =
      begin_symbol s.symbol l >>= read_snapshot rest ((s.bid_count + s.ask_count) % u32_mod)
  read_snapshot (order fits msg ∷ rest) zero l = running l
  read_snapshot (order fits msg ∷ rest) (suc left) l =
      if fits then dispatch_new_order msg l >>= read_snapshot rest left else running l
  read_snapshot (other_item ∷ rest) left l = running l

  pub process : Packet → Listener D → Status D
  process (snapshots items) l = read_snapshot items 0 l
  process foreign l = running l
  process (market msg) l = dispatch msg l >>= λ l'.
      running
        (record l' { no_replay_count = 0; messages_processed = add_u32 l'.messages_processed 1 })

  -- A datagram from a socket: kept until the replay is over, or processed.
  pub receive : Source → Packet → Listener D → Status D
  receive from packet l =
      if not l.caught_up && is_live from
      then if ltb 100000 (length l.live_buffer)
        then stopped l
        else running (record l { live_buffer = l.live_buffer ++ packet ∷ [] })
      else process packet l

  pub receive_all : List (Source × Option Packet) → Listener D → Status D
  receive_all [] l = running l
  receive_all ((from, none) ∷ rest) l = receive_all rest l
  receive_all ((from, some packet) ∷ rest) l = receive from packet l >>= receive_all rest

  -- A timeout before the listener has caught up; the hundred and first in a row is the end of the
  -- replay.
  pub count_silence : Listener D → Status D
  count_silence l =
      let l' = record l { no_replay_count = l.no_replay_count + 1 } in
      if ltb 100 l'.no_replay_count
      then drain l'.live_buffer (record l' { caught_up = true })
      else running l'

  -- A round of `run_listener`.
  unfoldable pub round : Poll → Listener D → Status D
  round failed l = stopped l
  round timed_out l = if not l.caught_up && l.received_snapshot then count_silence l else running l
  round (ready events) l = receive_all events l

  unfoldable pub run : List Poll → Listener D → Status D
  run [] l = running l
  run (p ∷ ps) l = round p l >>= run ps

  abbrev pub init : SymbolManager D → Listener D
  init m = record {
    sm = m;
    order_to_symbol = [];
    live_buffer = [];
    caught_up = false;
    received_snapshot = false;
    messages_processed = 0;
    no_replay_count = 0;
  }

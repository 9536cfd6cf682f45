-- ===== src/Listener/Datagram.antt =====
-- The processing of one datagram in listener.cpp, on the bytes in `buf`: the datagram, and behind it
-- what earlier ones have left there.
mod Market
mod Packed
mod Processed
mod Stuck
mod Tests
use hftalgorithms.Base.{
  ℕ, zero, suc, ◌+◌, ◌-◌, ◌%◌, Bool, true, false, Option, none, some, List, [], ◌∷◌, ◌++◌, ◌&&◌,
  ltb, leb, ◌==◌, if◌then◌else◌, length,
}
use hftalgorithms.Base.Int.{add_u32, u32_mod}
use hftalgorithms.Base.Bytes.{Bytes, read_le}
use hftalgorithms.Base.Prefixes.{drop, take}
use hftalgorithms.Messages.{
  MsgType, heartbeat, new_order, delete_order, modify_order, trade, trade_summary, snapshot_info,
  other_type, is_new_order, MdHeader,
}
use hftalgorithms.Messages.Wire.{
  magic_number, snapshot_magic_number, read_md_header, read_new_order, read_delete_order,
  read_modify_order, read_trade, read_snapshot_info,
}
use hftalgorithms.Listener.{
  Listener, Status, running, stopped, fault, dispatch_new_order, dispatch_delete_order,
  dispatch_modify_order, dispatch_trade, begin_symbol, ◌>>=◌,
}

-- `spent` is a loop that has used up its fuel.
pub data Ran (D : Type 0) : Type 0 where
  ran : Status D → Ran D
  spent : Ran D

-- `msg_type == MSG_TYPE::SNAPSHOT_INFO`
abbrev pub is_info : MsgType → Bool
is_info snapshot_info = true
is_info _ = false

-- The inner loop over a snapshot goes on: an order is still due, is there, and is one.
abbrev pub is_due : ℕ → ℕ → ℕ → MdHeader → Bool
is_due n offset left h = ltb 0 left && (leb (offset + 45) n && is_new_order h.msg_type)

-- `sizeof(buf)`
abbrev pub buffer_size : ℕ
buffer_size = 1500

-- `read`: as much of the datagram as the buffer has room for is stored over its beginning.
abbrev pub stored : Bytes → Bytes → Bytes
stored datagram buf =
    let data_read = take buffer_size datagram in data_read ++ drop (length data_read) buf

-- What `read` returns.
abbrev pub bytes_read : Bytes → ℕ
bytes_read datagram = length (take buffer_size datagram)

module _ {D : Type 0} where
  abbrev pub and_then : Status D → (Listener D → Ran D) → Ran D
  and_then (running l) f = f l
  and_then (stopped l) f = ran (stopped l)
  and_then fault f = ran fault

  -- A handler at a cast of the buffer.
  abbrev pub at_cast : {A : Type 0} → Option (A × Bytes) → (A → Status D) → Status D
  at_cast none f = fault
  at_cast (some (m, rest)) f = f m

  abbrev pub dispatch_bytes : MsgType → Bytes → Listener D → Status D
  dispatch_bytes new_order buf l = at_cast (read_new_order buf) λ m. dispatch_new_order m l
  dispatch_bytes delete_order buf l = at_cast (read_delete_order buf) λ m. dispatch_delete_order m l
  dispatch_bytes modify_order buf l = at_cast (read_modify_order buf) λ m. dispatch_modify_order m l
  dispatch_bytes trade buf l = at_cast (read_trade buf) λ m. dispatch_trade m l
  dispatch_bytes heartbeat buf l = running l
  dispatch_bytes trade_summary buf l = running l
  dispatch_bytes snapshot_info buf l = running l
  dispatch_bytes (other_type t) buf l = running l

  -- The two loops over a snapshot of `n` bytes, on fuel; `left` is how many orders the inner one may
  -- still read, and 0 in the outer one.
  pub snapshot_loop : ℕ → Bytes → ℕ → ℕ → ℕ → Listener D → Ran D
  snapshot_loop zero buf n offset left l = spent
  snapshot_loop (suc fuel) buf n offset left l =
      if leb n offset then ran (running l) else elim (read_md_header (drop offset buf)) [
        | none ↦ ran fault
        | some (h, behind) ↦
            if is_due n offset left h
            then elim (read_new_order (drop offset buf)) [
              | none ↦ ran fault
              | some (m, rest) ↦
                  and_then (dispatch_new_order m l)
                    (snapshot_loop fuel buf n (offset + m.header.length) (left - 1))
            ]
            else if is_info h.msg_type
            then elim (read_snapshot_info (drop offset buf)) [
              | none ↦ ran fault
              | some (s, rest) ↦ and_then (begin_symbol s.symbol l) (
                  snapshot_loop fuel buf n (offset + s.header.length)
                    ((s.bid_count + s.ask_count) % u32_mod))
            ]
            else ran (running l)
      ]

  -- A datagram of `n` bytes that is not kept for later.
  pub process_bytes : ℕ → Bytes → ℕ → Listener D → Ran D
  process_bytes fuel buf n l = elim (read_md_header buf) [
    | none ↦ ran fault
    | some (h, rest) ↦
        if h.magic_number == snapshot_magic_number
        then snapshot_loop fuel buf n 0 0 l
        else if h.magic_number == magic_number
        then ran (
            dispatch_bytes h.msg_type buf l >>= λ l'. running (record l' {
              no_replay_count = 0;
              messages_processed = add_u32 l'.messages_processed 1;
            }))
        else ran (running l)
  ]

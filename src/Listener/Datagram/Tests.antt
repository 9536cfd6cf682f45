-- ===== src/Listener/Datagram/Tests.antt =====
-- A snapshot of one order as bytes, a snapshot without a length, and the theorems at them.
use hftalgorithms.Base.{◌≡◌, refl, some, [], ◌∷◌, arith, ℕ, ◌<◌, ◌++◌}
use hftalgorithms.Base.Int.{ℤ, pos}
use hftalgorithms.Base.Double.{exact}
use hftalgorithms.Base.Bytes.{Bytes, read_le, le}
use hftalgorithms.Base.Prefixes.{drop}
use hftalgorithms.Messages.{MdHeader, NewOrder, SnapshotInfo, buy}
use hftalgorithms.Messages
use hftalgorithms.Messages.Wire
use hftalgorithms.Messages.Wire.{
  magic_number, snapshot_magic_number, new_order_bytes, snapshot_info_bytes,
}
use hftalgorithms.Messages.Wire.ReadBack.{IsNewOrder, IsSnapshotInfo, snapshot_info-Reads}
use hftalgorithms.Symbols
use hftalgorithms.Symbols.Cache.{init-IsReady}
use hftalgorithms.Listener.{process, init}
use hftalgorithms.Listener.Sound.{init-IsSound}
use hftalgorithms.Listener.Datagram.{ran, spent, snapshot_loop, process_bytes, stored, bytes_read}
use hftalgorithms.Listener.Datagram.Packed.{order_piece, info_header}
use hftalgorithms.Listener.Datagram.Processed.{
  process_bytes-process, whole_snapshot, datagram_bytes, packet_of,
}
use hftalgorithms.Listener.Datagram.Stuck.{snapshot_loop-stuck}

abbrev shown : SnapshotInfo
shown = record {
  header = record {
    magic_number = snapshot_magic_number;
    length = 39;
    seq_num = 3;
    timestamp = 1000;
    msg_type = Messages.snapshot_info;
  };
  symbol = 3;
  bid_count = 1;
  ask_count = 0;
  last_md_seq_num = 9;
}

abbrev bid : NewOrder
bid = record {
  header = record {
    magic_number = magic_number;
    length = 45;
    seq_num = 4;
    timestamp = 1001;
    msg_type = Messages.new_order;
  };
  order_id = 11;
  symbol = 3;
  side = buy;
  quantity = 5;
  price = pos 100;
  flags = 0;
}

shown-IsSnapshotInfo :
    (n : ℕ)
    → n < 256
    → IsSnapshotInfo (record shown { header = record shown.header { length = n }; bid_count = 0 })
unfolding snapshot_magic_number read_le
shown-IsSnapshotInfo n h = record {
  header = record {
    magic_number = omega arith;
    length = omega (arith, h);
    seq_num = omega arith;
    timestamp = omega arith;
    msg_type = omega arith;
    named = refl;
  };
  symbol = omega arith;
  bid_count = omega arith;
  ask_count = omega arith;
  last_md_seq_num = omega arith;
}

info-IsSnapshotInfo : IsSnapshotInfo shown
info-IsSnapshotInfo =
    let i = shown-IsSnapshotInfo 39 (omega arith) in
    record {
      header = i.header;
      symbol = omega arith;
      bid_count = omega arith;
      ask_count = omega arith;
      last_md_seq_num = omega arith;
    }

bid-IsNewOrder : IsNewOrder bid
unfolding magic_number read_le
bid-IsNewOrder = record {
  header = record {
    magic_number = omega arith;
    length = omega arith;
    seq_num = omega arith;
    timestamp = omega arith;
    msg_type = omega arith;
    named = refl;
  };
  order_id = omega arith;
  symbol = omega arith;
  side = omega arith;
  named = refl;
  quantity = omega arith;
  price = omega arith;
  flags = omega arith;
}

process_bytes-process_example :
    let g = whole_snapshot shown (order_piece bid ∷ []) in
    let l = init (Symbols.init {D = ℤ}) in
    process_bytes 3 (stored (datagram_bytes g) (7 ∷ 7 ∷ [])) (bytes_read (datagram_bytes g)) l
    ≡ ran (process (packet_of g) l)
unfolding new_order_bytes snapshot_info_bytes le
process_bytes-process_example =
    process_bytes-process 3 (whole_snapshot shown (order_piece bid ∷ [])) (7 ∷ 7 ∷ [])
      (init (Symbols.init {D = ℤ}))
      (((info-IsSnapshotInfo, refl, refl), ((bid-IsNewOrder, refl, refl), tt)), refl) (omega arith)
      (omega arith)

-- The same without orders and with the length 0.
abbrev endless : SnapshotInfo
endless = record shown { header = record shown.header { length = 0 }; bid_count = 0 }

endless_header :
    (rest : Bytes) × (Wire.read_md_header (snapshot_info_bytes endless ++ [])
      ≡ some (endless.header, rest))
endless_header = info_header endless [] (shown-IsSnapshotInfo 0 (omega arith))

snapshot_loop-stuck_example :
    snapshot_loop 50 (snapshot_info_bytes endless ++ []) 39 0 0 (init (Symbols.init {D = ℤ}))
    ≡ spent
unfolding drop
snapshot_loop-stuck_example =
    snapshot_loop-stuck 50 (snapshot_info_bytes endless ++ []) 39 0 endless endless_header.0 []
      (Symbols.init {D = ℤ}) (init (Symbols.init {D = ℤ})) (omega arith) endless_header.1
      ((snapshot_info-Reads endless (shown-IsSnapshotInfo 0 (omega arith))).reads []) refl refl
      (omega arith) (omega arith, omega arith) (init-IsSound init-IsReady)

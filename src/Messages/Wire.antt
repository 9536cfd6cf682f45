-- ===== src/Messages/Wire.antt =====
-- The packed structs of messages.h as bytes, and as the casts of listener.cpp read them.
pub mod ReadBack
use hftalgorithms.Base.{ℕ, ◌<◌, ◌≡◌, none, some, [], ◌∷◌, ◌==◌, if◌then◌else◌}
use hftalgorithms.Base.Int.{u32_of, IsI32}
use hftalgorithms.Base.Bytes.{
  Bytes, le, limit, packed, Reader, read_le, read_as, read_i32, ◌>>=◌, pure, Reads, >>=-Reads,
  pure-Reads, read_le-Reads, read_as-Reads, read_i32-Reads,
}
use hftalgorithms.Base.Text.{codes}
use hftalgorithms.Messages.{
  Side, buy, sell, other_side, MsgType, heartbeat, new_order, delete_order, modify_order, trade,
  trade_summary, snapshot_info, other_type, MdHeader, NewOrder, DeleteOrder, ModifyOrder, Trade,
  SnapshotInfo,
}

-- A text of eight bytes as a number.
abbrev pub number_of : Bytes → ℕ
number_of s = elim (read_le 8 s) [ none ↦ 0 | some (n, rest) ↦ n ]

unfoldable pub magic_number : ℕ
magic_number = number_of (codes "GOIRISH!")

unfoldable pub snapshot_magic_number : ℕ
snapshot_magic_number = number_of (codes "SNAPSHOT")

abbrev pub type_code : MsgType → ℕ
type_code heartbeat = 0
type_code new_order = 1
type_code delete_order = 2
type_code modify_order = 3
type_code trade = 4
type_code trade_summary = 5
type_code snapshot_info = 6
type_code (other_type n) = n

abbrev pub type_of : ℕ → MsgType
type_of n =
    if n == 0
    then heartbeat
    else if n == 1
    then new_order
    else if n == 2
    then delete_order
    else if n == 3
    then modify_order
    else if n == 4
    then trade
    else if n == 5
    then trade_summary
    else if n == 6
    then snapshot_info
    else other_type n

abbrev pub side_code : Side → ℕ
side_code buy = 1
side_code sell = 2
side_code (other_side n) = n

abbrev pub side_of : ℕ → Side
side_of n = if n == 1 then buy else if n == 2 then sell else other_side n

-- `md_header`, of 23 bytes.
pub read_md_header : Reader MdHeader
read_md_header = do
  magic ← read_le 8
  length ← read_le 2
  seq_num ← read_le 4
  timestamp ← read_le 8
  msg_type ← read_as type_of
  pure (record {
    magic_number = magic;
    length = length;
    seq_num = seq_num;
    timestamp = timestamp;
    msg_type = msg_type;
  })

-- `new_order`, of 45 bytes.
pub read_new_order : Reader NewOrder
read_new_order = do
  header ← read_md_header
  order_id ← read_le 8
  symbol ← read_le 4
  side ← read_as side_of
  quantity ← read_le 4
  price ← read_i32
  flags ← read_le 1
  pure (record {
    header = header;
    order_id = order_id;
    symbol = symbol;
    side = side;
    quantity = quantity;
    price = price;
    flags = flags;
  })

pub read_delete_order : Reader DeleteOrder
read_delete_order = do
  header ← read_md_header
  order_id ← read_le 8
  pure (record { header = header; order_id = order_id })

pub read_modify_order : Reader ModifyOrder
read_modify_order = do
  header ← read_md_header
  order_id ← read_le 8
  side ← read_as side_of
  quantity ← read_le 4
  price ← read_i32
  pure (record {
    header = header;
    order_id = order_id;
    side = side;
    quantity = quantity;
    price = price;
  })

pub read_trade : Reader Trade
read_trade = do
  header ← read_md_header
  order_id ← read_le 8
  quantity ← read_le 4
  price ← read_i32
  pure (record { header = header; order_id = order_id; quantity = quantity; price = price })

-- `snapshot_info`, of 39 bytes.
pub read_snapshot_info : Reader SnapshotInfo
read_snapshot_info = do
  header ← read_md_header
  symbol ← read_le 4
  bid_count ← read_le 4
  ask_count ← read_le 4
  last_md_seq_num ← read_le 4
  pure (record {
    header = header;
    symbol = symbol;
    bid_count = bid_count;
    ask_count = ask_count;
    last_md_seq_num = last_md_seq_num;
  })

abbrev pub md_header_bytes : MdHeader → Bytes
md_header_bytes h = packed (
    le 8 h.magic_number
    ∷ le 2 h.length
    ∷ le 4 h.seq_num
    ∷ le 8 h.timestamp
    ∷ le 1 (type_code h.msg_type)
    ∷ [])

unfoldable pub new_order_bytes : NewOrder → Bytes
new_order_bytes m = packed (
    md_header_bytes m.header
    ∷ le 8 m.order_id
    ∷ le 4 m.symbol
    ∷ le 1 (side_code m.side)
    ∷ le 4 m.quantity
    ∷ le 4 (u32_of m.price)
    ∷ le 1 m.flags
    ∷ [])

unfoldable pub snapshot_info_bytes : SnapshotInfo → Bytes
snapshot_info_bytes s = packed (
    md_header_bytes s.header
    ∷ le 4 s.symbol
    ∷ le 4 s.bid_count
    ∷ le 4 s.ask_count
    ∷ le 4 s.last_md_seq_num
    ∷ [])

unfoldable pub delete_order_bytes : DeleteOrder → Bytes
delete_order_bytes m = packed (md_header_bytes m.header ∷ le 8 m.order_id ∷ [])

unfoldable pub modify_order_bytes : ModifyOrder → Bytes
modify_order_bytes m = packed (
    md_header_bytes m.header
    ∷ le 8 m.order_id
    ∷ le 1 (side_code m.side)
    ∷ le 4 m.quantity
    ∷ le 4 (u32_of m.price)
    ∷ [])

unfoldable pub trade_bytes : Trade → Bytes
trade_bytes m =
    packed
      (md_header_bytes m.header ∷ le 8 m.order_id ∷ le 4 m.quantity ∷ le 4 (u32_of m.price) ∷ [])

-- ===== src/Messages/Wire/ReadBack.antt =====
-- The packed structs of messages.h, read back from their bytes.
use hftalgorithms.Base.{◌<◌, ◌≡◌}
use hftalgorithms.Base.Int.{IsI32}
use hftalgorithms.Base.Bytes.{
  limit, Reads, >>=-Reads, pure-Reads, read_le-Reads, read_as-Reads, read_i32-Reads,
}
use hftalgorithms.Messages.{MdHeader, NewOrder, DeleteOrder, ModifyOrder, Trade, SnapshotInfo}
use hftalgorithms.Messages.Wire.{
  type_code, type_of, side_code, side_of, read_md_header, read_new_order, read_snapshot_info,
  md_header_bytes, new_order_bytes, snapshot_info_bytes, read_delete_order, read_modify_order,
  read_trade, delete_order_bytes, modify_order_bytes, trade_bytes,
}

-- The fields are values of their types in C++, and a value with a name is written by it.
pub record IsMdHeader (h : MdHeader) : Type 0 where
  pub magic_number : h.magic_number < limit 8
  pub length : h.length < limit 2
  pub seq_num : h.seq_num < limit 4
  pub timestamp : h.timestamp < limit 8
  pub msg_type : type_code h.msg_type < 256
  pub named : type_of (type_code h.msg_type) ≡ h.msg_type

pub record IsNewOrder (m : NewOrder) : Type 0 where
  pub header : IsMdHeader m.header
  pub order_id : m.order_id < limit 8
  pub symbol : m.symbol < limit 4
  pub side : side_code m.side < 256
  pub named : side_of (side_code m.side) ≡ m.side
  pub quantity : m.quantity < limit 4
  pub price : IsI32 m.price
  pub flags : m.flags < limit 1

pub record IsDeleteOrder (m : DeleteOrder) : Type 0 where
  pub header : IsMdHeader m.header
  pub order_id : m.order_id < limit 8

pub record IsModifyOrder (m : ModifyOrder) : Type 0 where
  pub header : IsMdHeader m.header
  pub order_id : m.order_id < limit 8
  pub side : side_code m.side < 256
  pub named : side_of (side_code m.side) ≡ m.side
  pub quantity : m.quantity < limit 4
  pub price : IsI32 m.price

pub record IsTrade (m : Trade) : Type 0 where
  pub header : IsMdHeader m.header
  pub order_id : m.order_id < limit 8
  pub quantity : m.quantity < limit 4
  pub price : IsI32 m.price

pub record IsSnapshotInfo (s : SnapshotInfo) : Type 0 where
  pub header : IsMdHeader s.header
  pub symbol : s.symbol < limit 4
  pub bid_count : s.bid_count < limit 4
  pub ask_count : s.ask_count < limit 4
  pub last_md_seq_num : s.last_md_seq_num < limit 4

pub md_header-Reads : (h : MdHeader) → IsMdHeader h → Reads read_md_header (md_header_bytes h) h
unfolding read_md_header
md_header-Reads h i = >>=-Reads _ (read_le-Reads 8 h.magic_number i.magic_number) (
    >>=-Reads _ (read_le-Reads 2 h.length i.length) (
      >>=-Reads _ (read_le-Reads 4 h.seq_num i.seq_num) (
        >>=-Reads _ (read_le-Reads 8 h.timestamp i.timestamp) (
          >>=-Reads _ (read_as-Reads type_of (type_code h.msg_type) h.msg_type i.msg_type i.named)
            (pure-Reads h)))))

pub new_order-Reads : (m : NewOrder) → IsNewOrder m → Reads read_new_order (new_order_bytes m) m
unfolding read_new_order new_order_bytes
new_order-Reads m i = >>=-Reads _ (md_header-Reads m.header i.header) (
    >>=-Reads _ (read_le-Reads 8 m.order_id i.order_id) (
      >>=-Reads _ (read_le-Reads 4 m.symbol i.symbol) (
        >>=-Reads _ (read_as-Reads side_of (side_code m.side) m.side i.side i.named) (
          >>=-Reads _ (read_le-Reads 4 m.quantity i.quantity) (
            >>=-Reads _ (read_i32-Reads m.price i.price)
              (>>=-Reads _ (read_le-Reads 1 m.flags i.flags) (pure-Reads m)))))))

pub snapshot_info-Reads :
    (s : SnapshotInfo) → IsSnapshotInfo s → Reads read_snapshot_info (snapshot_info_bytes s) s
unfolding read_snapshot_info snapshot_info_bytes
snapshot_info-Reads s i = >>=-Reads _ (md_header-Reads s.header i.header) (
    >>=-Reads _ (read_le-Reads 4 s.symbol i.symbol) (
      >>=-Reads _ (read_le-Reads 4 s.bid_count i.bid_count) (
        >>=-Reads _ (read_le-Reads 4 s.ask_count i.ask_count)
          (>>=-Reads _ (read_le-Reads 4 s.last_md_seq_num i.last_md_seq_num) (pure-Reads s)))))

pub delete_order-Reads :
    (m : DeleteOrder) → IsDeleteOrder m → Reads read_delete_order (delete_order_bytes m) m
unfolding read_delete_order delete_order_bytes
delete_order-Reads m i =
    >>=-Reads _ (md_header-Reads m.header i.header)
      (>>=-Reads _ (read_le-Reads 8 m.order_id i.order_id) (pure-Reads m))

pub modify_order-Reads :
    (m : ModifyOrder) → IsModifyOrder m → Reads read_modify_order (modify_order_bytes m) m
unfolding read_modify_order modify_order_bytes
modify_order-Reads m i = >>=-Reads _ (md_header-Reads m.header i.header) (
    >>=-Reads _ (read_le-Reads 8 m.order_id i.order_id) (
      >>=-Reads _ (read_as-Reads side_of (side_code m.side) m.side i.side i.named) (
        >>=-Reads _ (read_le-Reads 4 m.quantity i.quantity)
          (>>=-Reads _ (read_i32-Reads m.price i.price) (pure-Reads m)))))

pub trade-Reads : (m : Trade) → IsTrade m → Reads read_trade (trade_bytes m) m
unfolding read_trade trade_bytes
trade-Reads m i = >>=-Reads _ (md_header-Reads m.header i.header) (
    >>=-Reads _ (read_le-Reads 8 m.order_id i.order_id) (
      >>=-Reads _ (read_le-Reads 4 m.quantity i.quantity)
        (>>=-Reads _ (read_i32-Reads m.price i.price) (pure-Reads m))))

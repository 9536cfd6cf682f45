-- ===== src/Messages.antt =====
-- The market data messages of messages.h. A record holds a message's fields once its packed bytes
-- have been read; a byte that is no enumerator stays distinct, since the casts accept it.
pub mod Wire
use hftalgorithms.Base.{ℕ, Bool, true, false}
use hftalgorithms.Base.Int.{ℤ}

pub data Side : Type 0 where
  buy sell : Side
  other_side : ℕ → Side

pub data MsgType : Type 0 where
  heartbeat new_order delete_order modify_order trade trade_summary snapshot_info : MsgType
  other_type : ℕ → MsgType

-- `side == SIDE::BUY`
abbrev pub is_buy : Side → Bool
is_buy buy = true
is_buy _ = false

-- `side == SIDE::SELL`
abbrev pub is_sell : Side → Bool
is_sell sell = true
is_sell _ = false

-- `msg_type == MSG_TYPE::NEW_ORDER`
abbrev pub is_new_order : MsgType → Bool
is_new_order new_order = true
is_new_order _ = false

pub record MdHeader : Type 0 where
  pub magic_number : ℕ
  pub length : ℕ
  pub seq_num : ℕ
  pub timestamp : ℕ
  pub msg_type : MsgType

pub record NewOrder : Type 0 where
  pub header : MdHeader
  pub order_id : ℕ
  pub symbol : ℕ
  pub side : Side
  pub quantity : ℕ
  pub price : ℤ
  pub flags : ℕ

pub record DeleteOrder : Type 0 where
  pub header : MdHeader
  pub order_id : ℕ

pub record ModifyOrder : Type 0 where
  pub header : MdHeader
  pub order_id : ℕ
  pub side : Side
  pub quantity : ℕ
  pub price : ℤ

pub record Trade : Type 0 where
  pub header : MdHeader
  pub order_id : ℕ
  pub quantity : ℕ
  pub price : ℤ

pub record TradeSummary : Type 0 where
  pub header : MdHeader
  pub symbol : ℕ
  pub aggressor_side : Side
  pub total_quantity : ℕ
  pub last_price : ℤ

pub record SnapshotInfo : Type 0 where
  pub header : MdHeader
  pub symbol : ℕ
  pub bid_count : ℕ
  pub ask_count : ℕ
  pub last_md_seq_num : ℕ

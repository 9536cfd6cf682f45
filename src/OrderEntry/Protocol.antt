-- ===== src/OrderEntry/Protocol.antt =====
-- oe_messages.h and `FillEvent` of oe_client.h: what passes between the client, the exchange and the
-- client's owner.
use hftalgorithms.Base.{ℕ, Bool, List}
use hftalgorithms.Base.Int.{ℤ}
use hftalgorithms.Messages.{Side}

pub data OeType : Type 0 where
  new_order delete_order modify_order login login_response : OeType
  ack reject fill close error : OeType
  other_oe_type : ℕ → OeType

pub data RejectReason : Type 0 where
  none_given unknown_symbol invalid_order duplicate_order_id unknown_order_id : RejectReason
  invalid_price invalid_quantity invalid_side unknown_session_id duplicate_login : RejectReason
  other_reason : ℕ → RejectReason

pub data FillFlags : Type 0 where
  no_flags partial_fill closed : FillFlags
  other_flags : ℕ → FillFlags

pub record RequestHeader : Type 0 where
  pub length : ℕ
  pub msg_type : OeType
  pub version : ℕ
  pub seq_num : ℕ
  pub client_id : ℕ
  pub session_id : ℕ

pub record ResponseHeader : Type 0 where
  pub length : ℕ
  pub msg_type : OeType
  pub version : ℕ
  pub seq_num : ℕ
  pub last_seq_num : ℕ
  pub client_id : ℕ

pub record OeNewOrder : Type 0 where
  pub header : RequestHeader
  pub order_id : ℕ
  pub symbol : ℕ
  pub side : Side
  pub quantity : ℕ
  pub price : ℤ
  pub flags : ℕ

pub record OeDeleteOrder : Type 0 where
  pub header : RequestHeader
  pub order_id : ℕ

pub record OeModifyOrder : Type 0 where
  pub header : RequestHeader
  pub order_id : ℕ
  pub side : Side
  pub quantity : ℕ
  pub price : ℤ

-- The two texts are fields of 16 bytes.
pub record Login : Type 0 where
  pub header : RequestHeader
  pub username : List ℕ
  pub password : List ℕ

pub data LoginStatus : Type 0 where
  success invalid_username invalid_password invalid_session : LoginStatus
  session_already_active status_duplicate_login invalid_client_id : LoginStatus
  other_status : ℕ → LoginStatus

pub record LoginResponse : Type 0 where
  pub session_id : ℕ
  pub status : LoginStatus

pub data Request : Type 0 where
  login_msg : Login → Request
  new_order_msg : OeNewOrder → Request
  delete_order_msg : OeDeleteOrder → Request
  modify_order_msg : OeModifyOrder → Request

pub record OrderAck : Type 0 where
  pub order_id : ℕ
  pub exch_order_id : ℕ
  pub quantity : ℕ
  pub price : ℤ

pub record OrderReject : Type 0 where
  pub order_id : ℕ
  pub reject_reason : RejectReason

pub record OrderFill : Type 0 where
  pub order_id : ℕ
  pub quantity : ℕ
  pub price : ℤ
  pub flags : FillFlags

pub record OrderClosed : Type 0 where
  pub order_id : ℕ

-- A response by its type; the client takes no notice of types other than these four.
pub data Response : Type 0 where
  acked : OrderAck → Response
  rejected : OrderReject → Response
  filled : OrderFill → Response
  order_closed : OrderClosed → Response
  unhandled : OeType → Response

pub record FillEvent : Type 0 where
  pub order_id : ℕ
  pub qty : ℕ
  pub price : ℤ
  pub closed : Bool

-- A call of one of the three callbacks.
pub data Callback : Type 0 where
  on_fill : FillEvent → Callback
  on_reject on_close : ℕ → Callback

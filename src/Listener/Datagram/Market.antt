-- ===== src/Listener/Datagram/Market.antt =====
-- Datagrams of one message under MAGIC_NUMBER, or under a foreign one, on their bytes.
use hftalgorithms.Base.{ℕ, ◌≡◌, refl, ap, ◌∙◌, Bool, true, false, some, ◌++◌, arith, ◌==◌}
use hftalgorithms.Base.Bytes.{Bytes, read_le, Reads, Reads-first, Reader}
use hftalgorithms.Messages.{MdHeader, MsgType, NewOrder, DeleteOrder, ModifyOrder, Trade}
use hftalgorithms.Messages
use hftalgorithms.Messages.Wire.{
  read_md_header, md_header_bytes, new_order_bytes, delete_order_bytes, modify_order_bytes,
  trade_bytes, snapshot_magic_number, magic_number,
}
use hftalgorithms.Messages.Wire.ReadBack.{
  IsMdHeader, IsNewOrder, IsDeleteOrder, IsModifyOrder, IsTrade, md_header-Reads, new_order-Reads,
  delete_order-Reads, modify_order-Reads, trade-Reads,
}
use hftalgorithms.Listener.{
  Listener, Status, Message, market, process, dispatch, dispatch_new_order, dispatch_delete_order,
  dispatch_modify_order, dispatch_trade,
}
use hftalgorithms.Listener
use hftalgorithms.Listener.Datagram.{ran, process_bytes, dispatch_bytes, at_cast}

-- A message of the market data; a bare one is of another type than the first four, with any bytes
-- behind its header.
pub data Note : Type 0 where
  adds : NewOrder → Note
  deletes : DeleteOrder → Note
  modifies : ModifyOrder → Note
  trades : Trade → Note
  bare : MdHeader → Bytes → Note

abbrev pub note_bytes : Note → Bytes
note_bytes (adds m) = new_order_bytes m
note_bytes (deletes m) = delete_order_bytes m
note_bytes (modifies m) = modify_order_bytes m
note_bytes (trades m) = trade_bytes m
note_bytes (bare h more) = md_header_bytes h ++ more

abbrev pub note_header : Note → MdHeader
note_header (adds m) = m.header
note_header (deletes m) = m.header
note_header (modifies m) = m.header
note_header (trades m) = m.header
note_header (bare h more) = h

abbrev bare_message : MsgType → Message
bare_message Messages.heartbeat = Listener.heartbeat
bare_message _ = Listener.other_message

abbrev is_bare : MsgType → Bool
is_bare Messages.new_order = false
is_bare Messages.delete_order = false
is_bare Messages.modify_order = false
is_bare Messages.trade = false
is_bare _ = true

abbrev pub note_message : Note → Message
note_message (adds m) = Listener.new_order m
note_message (deletes m) = Listener.delete_order m
note_message (modifies m) = Listener.modify_order m
note_message (trades m) = Listener.trade m
note_message (bare h more) = bare_message h.msg_type

-- The fields are values of their C++ types, and the type is the message's.
abbrev pub IsNote : Note → Type 0
IsNote (adds m) = IsNewOrder m × (m.header.msg_type ≡ Messages.new_order)
IsNote (deletes m) = IsDeleteOrder m × (m.header.msg_type ≡ Messages.delete_order)
IsNote (modifies m) = IsModifyOrder m × (m.header.msg_type ≡ Messages.modify_order)
IsNote (trades m) = IsTrade m × (m.header.msg_type ≡ Messages.trade)
IsNote (bare h more) = IsMdHeader h × (is_bare h.msg_type ≡ true)

pub bare_header :
    (h : MdHeader) (more stale : Bytes)
    → IsMdHeader h
    → (rest : Bytes) × (read_md_header ((md_header_bytes h ++ more) ++ stale) ≡ some (h, rest))
bare_header h more stale i = Reads-first more stale (md_header-Reads h i)

read_note_header :
    (n : Note) (stale : Bytes)
    → IsNote n
    → (rest : Bytes) × (read_md_header (note_bytes n ++ stale) ≡ some (note_header n, rest))
unfolding new_order_bytes delete_order_bytes modify_order_bytes trade_bytes
read_note_header (adds m) stale i = Reads-first _ stale (md_header-Reads m.header i.0.header)
read_note_header (deletes m) stale i = Reads-first _ stale (md_header-Reads m.header i.0.header)
read_note_header (modifies m) stale i = Reads-first _ stale (md_header-Reads m.header i.0.header)
read_note_header (trades m) stale i = Reads-first _ stale (md_header-Reads m.header i.0.header)
read_note_header (bare h more) stale i = bare_header h more stale i.0

module _ {D : Type 0} where
  -- A handler at a cast gets the message whose bytes stand there.
  cast_to :
      {A : Type 0} {m : Reader A} {bytes : Bytes} {a : A} (stale : Bytes) (f : A → Status D)
      → Reads m bytes a
      → at_cast (m (bytes ++ stale)) f ≡ f a
  cast_to stale f reads = ap (λ o. at_cast o f) (reads.reads stale)

  bare_dispatch :
      (t : MsgType) (buf : Bytes) (l : Listener D)
      → is_bare t ≡ true
      → dispatch_bytes t buf l ≡ dispatch (bare_message t) l
  unfolding dispatch
  bare_dispatch Messages.new_order buf l h = ground (arith, h)
  bare_dispatch Messages.delete_order buf l h = ground (arith, h)
  bare_dispatch Messages.modify_order buf l h = ground (arith, h)
  bare_dispatch Messages.trade buf l h = ground (arith, h)
  bare_dispatch Messages.heartbeat buf l h = refl
  bare_dispatch Messages.trade_summary buf l h = refl
  bare_dispatch Messages.snapshot_info buf l h = refl
  bare_dispatch (Messages.other_type t) buf l h = refl

  dispatch_note :
      (n : Note) (stale : Bytes) (l : Listener D)
      → IsNote n
      → dispatch_bytes (note_header n).msg_type (note_bytes n ++ stale) l
        ≡ dispatch (note_message n) l
  unfolding dispatch
  dispatch_note (adds m) stale l (i, type) =
      ap (λ t. dispatch_bytes t (new_order_bytes m ++ stale) l) type
      ∙ cast_to stale (λ x. dispatch_new_order x l) (new_order-Reads m i)
  dispatch_note (deletes m) stale l (i, type) =
      ap (λ t. dispatch_bytes t (delete_order_bytes m ++ stale) l) type
      ∙ cast_to stale (λ x. dispatch_delete_order x l) (delete_order-Reads m i)
  dispatch_note (modifies m) stale l (i, type) =
      ap (λ t. dispatch_bytes t (modify_order_bytes m ++ stale) l) type
      ∙ cast_to stale (λ x. dispatch_modify_order x l) (modify_order-Reads m i)
  dispatch_note (trades m) stale l (i, type) =
      ap (λ t. dispatch_bytes t (trade_bytes m ++ stale) l) type
      ∙ cast_to stale (λ x. dispatch_trade x l) (trade-Reads m i)
  dispatch_note (bare h more) stale l (i, other) =
      bare_dispatch h.msg_type ((md_header_bytes h ++ more) ++ stale) l other

  pub on_note :
      (fuel size : ℕ) (n : Note) (stale : Bytes) (l : Listener D)
      → IsNote n
      → (note_header n).magic_number ≡ magic_number
      → process_bytes fuel (note_bytes n ++ stale) size l
        ≡ ran (process (market (note_message n)) l)
  unfolding process_bytes process magic_number snapshot_magic_number read_le
  on_note fuel size n stale l i magic =
      let (rest, header) = read_note_header n stale i in
      let other : ((note_header n).magic_number == snapshot_magic_number) ≡ false =
        ground (arith, magic) in
      let same : ((note_header n).magic_number == magic_number) ≡ true = ground (arith, magic) in
      rw (process_bytes, header, other, same, dispatch_note n stale l i) refl

  pub on_foreign :
      (fuel size : ℕ) (h : MdHeader) (more stale : Bytes) (l : Listener D)
      → IsMdHeader h
      → (h.magic_number == snapshot_magic_number) ≡ false
      → (h.magic_number == magic_number) ≡ false
      → process_bytes fuel ((md_header_bytes h ++ more) ++ stale) size l
        ≡ ran (process Listener.foreign l)
  unfolding process_bytes process
  on_foreign fuel size h more stale l i first second =
      let (rest, header) = bare_header h more stale i in
      rw (process_bytes, header, first, second) refl

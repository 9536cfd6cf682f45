-- ===== src/Listener/Datagram/Processed.antt =====
-- The processing of a datagram on its bytes and on the messages in them.
use hftalgorithms.Base.{
  ℕ, zero, suc, ◌+◌, ◌-◌, ◌%◌, ◌<◌, ◌≤◌, ◌≡◌, refl, ap, ◌∙◌, true, false, some, List, [], ◌∷◌, ◌++◌,
  map, All, arith, length, length-append, leb, ◌==◌,
}
use mathlib.Core.List.{append_assoc}
use hftalgorithms.Base.Int.{u32_mod}
use hftalgorithms.Base.Bytes.{Bytes}
use hftalgorithms.Base.Prefixes.{drop, concat, take_all}
use hftalgorithms.Messages.{NewOrder, SnapshotInfo, MdHeader}
use hftalgorithms.Messages.Wire.{
  read_md_header, read_new_order, read_snapshot_info, new_order_bytes, snapshot_info_bytes,
  snapshot_magic_number, magic_number, md_header_bytes,
}
use hftalgorithms.Messages.Wire.ReadBack.{IsMdHeader, new_order-Reads, snapshot_info-Reads}
use hftalgorithms.Listener.{
  Listener, Status, running, stopped, fault, Packet, info, order, read_snapshot, ◌>>=◌, process,
  snapshots, market, foreign, begin_symbol, dispatch_new_order,
}
use hftalgorithms.Listener.Datagram.{
  Ran, ran, and_then, snapshot_loop, process_bytes, is_info, stored, bytes_read, buffer_size,
}
use hftalgorithms.Listener.Datagram.Market.{
  Note, note_bytes, note_header, note_message, IsNote, on_note, on_foreign,
}
use hftalgorithms.Listener.Datagram.Packed.{
  Piece, info_piece, order_piece, piece_bytes, item_of, IsPiece, info_size, order_size, info_header,
  Holds, next-Holds, info_not_due, order_due, order_header,
}

-- What a datagram is made of: a snapshot, a single message, or a header with a magic number that is
-- none of the two, and any bytes.
pub data Datagram : Type 0 where
  whole_snapshot : SnapshotInfo → List Piece → Datagram
  single : Note → Datagram
  unknown : MdHeader → Bytes → Datagram

abbrev pub datagram_bytes : Datagram → Bytes
datagram_bytes (whole_snapshot s ps) = concat (map piece_bytes (info_piece s ∷ ps))
datagram_bytes (single n) = note_bytes n
datagram_bytes (unknown h more) = md_header_bytes h ++ more

abbrev pub packet_of : Datagram → Packet
packet_of (whole_snapshot s ps) = snapshots (info s ∷ map item_of ps)
packet_of (single n) = market (note_message n)
packet_of (unknown h more) = foreign

-- How many messages it has.
abbrev pub message_count : Datagram → ℕ
message_count (whole_snapshot s ps) = suc (length ps)
message_count (single n) = 1
message_count (unknown h more) = 0

-- It has the magic number of its kind, and its messages are of their types.
abbrev pub IsDatagram : Datagram → Type 0
IsDatagram (whole_snapshot s ps) =
    All IsPiece (info_piece s ∷ ps) × (s.header.magic_number ≡ snapshot_magic_number)
IsDatagram (single n) = IsNote n × ((note_header n).magic_number ≡ magic_number)
IsDatagram (unknown h more) =
    IsMdHeader h
    × ((h.magic_number == snapshot_magic_number) ≡ false)
    × ((h.magic_number == magic_number) ≡ false)

stored_whole :
    (bytes buf : Bytes)
    → length bytes ≤ buffer_size
    → stored bytes buf ≡ bytes ++ drop (length bytes) buf
stored_whole bytes buf h = rw (take_all buffer_size bytes h) refl

module _ {D : Type 0} where
  and_then-same :
      (st : Status D) (f : Listener D → Ran D) (g : Listener D → Status D)
      → ((l : Listener D) → f l ≡ ran (g l))
      → and_then st f ≡ ran (st >>= g)
  and_then-same (running l) f g h = h l
  and_then-same (stopped l) f g h = refl
  and_then-same fault f g h = refl

  loop_on_info :
      (fuel : ℕ) (buf : Bytes) (n offset left : ℕ) (s : SnapshotInfo) (behind : Bytes)
      (l : Listener D)
      → drop offset buf ≡ snapshot_info_bytes s ++ behind
      → IsPiece (info_piece s)
      → leb n offset ≡ false
      → snapshot_loop (suc fuel) buf n offset left l
        ≡ and_then
            (begin_symbol s.symbol l)
            (snapshot_loop fuel buf n (offset + 39) ((s.bid_count + s.ask_count) % u32_mod))
  unfolding snapshot_loop
  loop_on_info fuel buf n offset left s behind l e (i, size, type) more =
      let (rest, header) = info_header s behind i in
      let at_header : read_md_header (drop offset buf) ≡ some (s.header, rest) =
        ap read_md_header e ∙ header in
      let at_info : read_snapshot_info (drop offset buf) ≡ some (s, behind) =
        ap read_snapshot_info e ∙ (snapshot_info-Reads s i).reads behind in
      rw
        (
          snapshot_loop,
          more,
          at_header,
          info_not_due n offset left s.header type,
          ap is_info type,
          at_info,
          size,
        )
        refl

  loop_on_order :
      (fuel : ℕ) (buf : Bytes) (n offset left : ℕ) (m : NewOrder) (behind : Bytes) (l : Listener D)
      → drop offset buf ≡ new_order_bytes m ++ behind
      → IsPiece (order_piece m)
      → offset + 45 ≤ n
      → snapshot_loop (suc fuel) buf n offset (suc left) l
        ≡ and_then (dispatch_new_order m l) (snapshot_loop fuel buf n (offset + 45) left)
  unfolding snapshot_loop
  loop_on_order fuel buf n offset left m behind l e (i, size, type) fits =
      let (rest, header) = order_header m behind i in
      let at_header : read_md_header (drop offset buf) ≡ some (m.header, rest) =
        ap read_md_header e ∙ header in
      let at_order : read_new_order (drop offset buf) ≡ some (m, behind) =
        ap read_new_order e ∙ (new_order-Reads m i).reads behind in
      let more : leb n offset ≡ false = ground (arith, fits) in
      let same : suc left - 1 ≡ left = omega arith in
      rw
        (
          snapshot_loop,
          more,
          at_header,
          order_due n offset left m.header type fits,
          at_order,
          size,
          same,
        )
        refl

  loop_ends_at_order :
      (fuel : ℕ) (buf : Bytes) (n offset : ℕ) (m : NewOrder) (behind : Bytes) (l : Listener D)
      → drop offset buf ≡ new_order_bytes m ++ behind
      → IsPiece (order_piece m)
      → leb n offset ≡ false
      → snapshot_loop (suc fuel) buf n offset 0 l ≡ ran (running l)
  unfolding snapshot_loop
  loop_ends_at_order fuel buf n offset m behind l e (i, size, type) more =
      let (rest, header) = order_header m behind i in
      let at_header : read_md_header (drop offset buf) ≡ some (m.header, rest) =
        ap read_md_header e ∙ header in
      rw (snapshot_loop, more, at_header, ap is_info type) refl

  on_order :
      (fuel : ℕ) (m : NewOrder) (ps : List Piece) (behind buf : Bytes) (n offset left : ℕ)
      (l : Listener D)
      → drop offset buf ≡ new_order_bytes m ++ behind
      → IsPiece (order_piece m)
      → offset + 45 ≤ n
      → ((l' : Listener D) (left' : ℕ)
          → snapshot_loop fuel buf n (offset + 45) left' l'
            ≡ ran (read_snapshot (map item_of ps) left' l'))
      → snapshot_loop (suc fuel) buf n offset left l
        ≡ ran (read_snapshot (order true m ∷ map item_of ps) left l)
  unfolding read_snapshot
  on_order fuel m ps behind buf n offset zero l e i fits next =
      loop_ends_at_order fuel buf n offset m behind l e i (ground (arith, fits))
  on_order fuel m ps behind buf n offset (suc left) l e i fits next =
      loop_on_order fuel buf n offset left m behind l e i fits
      ∙ and_then-same (dispatch_new_order m l) _ _ (λ l'. next l' left)

  loop-read_snapshot :
      (fuel : ℕ) (ps : List Piece) (stale buf : Bytes) (n offset left : ℕ) (l : Listener D)
      → All IsPiece ps
      → Holds ps stale buf n offset
      → length ps < fuel
      → snapshot_loop fuel buf n offset left l ≡ ran (read_snapshot (map item_of ps) left l)
  unfolding snapshot_loop read_snapshot
  loop-read_snapshot zero ps stale buf n offset left l h holds enough = ground (arith, enough)
  loop-read_snapshot (suc fuel) [] stale buf n offset left l h (bytes, ends) enough =
      let over : leb n offset ≡ true = ground (arith, ends) in rw (snapshot_loop, over) refl
  loop-read_snapshot (suc fuel) (info_piece s ∷ ps) stale buf n offset left l h holds enough =
      let behind : Bytes = concat (map piece_bytes ps) ++ stale in
      let e : drop offset buf ≡ snapshot_info_bytes s ++ behind =
        holds.0 ∙ append_assoc (snapshot_info_bytes s) (concat (map piece_bytes ps)) stale in
      let size : length (snapshot_info_bytes s ++ concat (map piece_bytes ps))
          ≡ 39 + length (concat (map piece_bytes ps)) =
        length-append (snapshot_info_bytes s) (concat (map piece_bytes ps))
        ∙ rw (info_size s) refl in
      let more : leb n offset ≡ false = ground (arith, holds.1, size) in
      loop_on_info fuel buf n offset left s behind l e h.0 more
      ∙ and_then-same (begin_symbol s.symbol l) _ _ (λ l'.
        loop-read_snapshot fuel ps stale buf n (offset + 39) _ l' h.1
          (next-Holds (info_piece s) ps stale buf n offset 39 (info_size s) holds)
          (omega (arith, enough)))
  loop-read_snapshot (suc fuel) (order_piece m ∷ ps) stale buf n offset left l h holds enough =
      let behind : Bytes = concat (map piece_bytes ps) ++ stale in
      let e : drop offset buf ≡ new_order_bytes m ++ behind =
        holds.0 ∙ append_assoc (new_order_bytes m) (concat (map piece_bytes ps)) stale in
      let size : length (new_order_bytes m ++ concat (map piece_bytes ps))
          ≡ 45 + length (concat (map piece_bytes ps)) =
        length-append (new_order_bytes m) (concat (map piece_bytes ps)) ∙ rw (order_size m) refl in
      on_order fuel m ps behind buf n offset left l e h.0 (omega (arith, holds.1, size))
        (λ l' left'.
          loop-read_snapshot fuel ps stale buf n (offset + 45) left' l' h.1
            (next-Holds (order_piece m) ps stale buf n offset 45 (order_size m) holds)
            (omega (arith, enough)))

  on_magic :
      (fuel : ℕ) (buf : Bytes) (n : ℕ) (l : Listener D) (h : MdHeader) (rest : Bytes)
      → read_md_header buf ≡ some (h, rest)
      → h.magic_number ≡ snapshot_magic_number
      → process_bytes fuel buf n l ≡ snapshot_loop fuel buf n 0 0 l
  unfolding process_bytes
  on_magic fuel buf n l h rest e magic =
      let same : (h.magic_number == snapshot_magic_number) ≡ true = ground (arith, magic) in
      rw (process_bytes, e, same) refl

  on_datagram :
      (fuel : ℕ) (g : Datagram) (stale : Bytes) (l : Listener D)
      → IsDatagram g
      → message_count g < fuel
      → process_bytes fuel (datagram_bytes g ++ stale) (length (datagram_bytes g)) l
        ≡ ran (process (packet_of g) l)
  unfolding process drop
  on_datagram fuel (whole_snapshot s ps) stale l (h, magic) enough =
      let bytes = concat (map piece_bytes (info_piece s ∷ ps)) in
      let (rest, header) = info_header s (concat (map piece_bytes ps) ++ stale) h.0.0 in
      on_magic fuel (bytes ++ stale) (length bytes) l s.header rest
        (ap read_md_header
            (append_assoc (snapshot_info_bytes s) (concat (map piece_bytes ps)) stale)
          ∙ header)
        magic
      ∙ loop-read_snapshot fuel (info_piece s ∷ ps) stale (bytes ++ stale) (length bytes) 0 0 l h
          (refl, omega arith) enough
  on_datagram fuel (single n) stale l (i, magic) enough =
      on_note fuel (length (note_bytes n)) n stale l i magic
  on_datagram fuel (unknown h more) stale l (i, first, second) enough =
      on_foreign fuel (length (md_header_bytes h ++ more)) h more stale l i first second

  -- A datagram of at most 1500 bytes is processed on its bytes as what it is made of is, whatever
  -- earlier datagrams have left in the buffer: a snapshot, packed message behind message, as the list
  -- of its messages; a single new, deleted or modified order, trade or other message under
  -- MAGIC_NUMBER as that message; and one under another magic number not at all. A round for each
  -- message and one more are enough.
  pub process_bytes-process :
      (fuel : ℕ) (g : Datagram) (buf : Bytes) (l : Listener D)
      → IsDatagram g
      → length (datagram_bytes g) ≤ buffer_size
      → message_count g < fuel
      → process_bytes fuel (stored (datagram_bytes g) buf) (bytes_read (datagram_bytes g)) l
        ≡ ran (process (packet_of g) l)
  process_bytes-process fuel g buf l i fits enough =
      let bytes = datagram_bytes g in
      ap (λ b. process_bytes fuel b (bytes_read bytes) l) (stored_whole bytes buf fits)
      ∙ ap (λ b. process_bytes fuel (bytes ++ drop (length bytes) buf) (length b) l)
          (take_all buffer_size bytes fits)
      ∙ on_datagram fuel g (drop (length bytes) buf) l i enough

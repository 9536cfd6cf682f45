-- ===== src/Listener/Datagram/Packed.antt =====
-- Datagrams of packed messages, on their bytes and as what these read as.
use hftalgorithms.Base.{
  ℕ, suc, ◌+◌, ◌≤◌, ◌≡◌, sym, ◌∙◌, true, false, some, List, ◌∷◌, ◌++◌, map, arith, length,
  length-append,
}
use mathlib.Core.List.{append_assoc}
use hftalgorithms.Base.Bytes.{Bytes, le, Reads-first}
use hftalgorithms.Base.Prefixes.{drop, concat, drop-append, drop-sum}
use hftalgorithms.Messages.{NewOrder, SnapshotInfo, MdHeader}
use hftalgorithms.Messages
use hftalgorithms.Messages.Wire.{read_md_header, new_order_bytes, snapshot_info_bytes}
use hftalgorithms.Messages.Wire.ReadBack.{IsNewOrder, IsSnapshotInfo, md_header-Reads}
use hftalgorithms.Listener.{Item, info, order}
use hftalgorithms.Listener.Datagram.{is_due}

-- A message of a snapshot.
pub data Piece : Type 0 where
  info_piece : SnapshotInfo → Piece
  order_piece : NewOrder → Piece

abbrev pub piece_bytes : Piece → Bytes
piece_bytes (info_piece s) = snapshot_info_bytes s
piece_bytes (order_piece m) = new_order_bytes m

abbrev pub item_of : Piece → Item
item_of (info_piece s) = info s
item_of (order_piece m) = order true m

-- Its type and its length are those of its struct.
abbrev pub IsPiece : Piece → Type 0
IsPiece (info_piece s) =
    IsSnapshotInfo s × (s.header.length ≡ 39) × (s.header.msg_type ≡ Messages.snapshot_info)
IsPiece (order_piece m) =
    IsNewOrder m × (m.header.length ≡ 45) × (m.header.msg_type ≡ Messages.new_order)

pub info_size : (s : SnapshotInfo) → length (snapshot_info_bytes s) ≡ 39
unfolding snapshot_info_bytes le
info_size s = omega arith

pub order_size : (m : NewOrder) → length (new_order_bytes m) ≡ 45
unfolding new_order_bytes le
order_size m = omega arith

pub info_header :
    (s : SnapshotInfo) (behind : Bytes)
    → IsSnapshotInfo s
    → (rest : Bytes) × (read_md_header (snapshot_info_bytes s ++ behind) ≡ some (s.header, rest))
unfolding snapshot_info_bytes
info_header s behind i = Reads-first _ behind (md_header-Reads s.header i.header)

pub order_header :
    (m : NewOrder) (behind : Bytes)
    → IsNewOrder m
    → (rest : Bytes) × (read_md_header (new_order_bytes m ++ behind) ≡ some (m.header, rest))
unfolding new_order_bytes
order_header m behind i = Reads-first _ behind (md_header-Reads m.header i.header)

-- The bytes from an offset are these messages and what has been left behind them.
abbrev pub Holds : List Piece → Bytes → Bytes → ℕ → ℕ → Type 0
Holds ps stale buf n offset =
    (drop offset buf ≡ concat (map piece_bytes ps) ++ stale)
    × (n ≡ offset + length (concat (map piece_bytes ps)))

pub next-Holds :
    (p : Piece) (ps : List Piece) (stale buf : Bytes) (n offset size : ℕ)
    → length (piece_bytes p) ≡ size
    → Holds (p ∷ ps) stale buf n offset
    → Holds ps stale buf n (offset + size)
next-Holds p ps stale buf n offset size e (bytes, ends) = (
  drop-sum offset size buf
      ∙ rw (bytes, sym e, append_assoc (piece_bytes p) (concat (map piece_bytes ps)) stale)
          (drop-append (piece_bytes p) (concat (map piece_bytes ps) ++ stale)),
  omega (arith, ends, e, length-append (piece_bytes p) (concat (map piece_bytes ps))),
)

pub info_not_due :
    (n offset left : ℕ) (h : MdHeader)
    → h.msg_type ≡ Messages.snapshot_info
    → is_due n offset left h ≡ false
info_not_due n offset left h e = ground (arith, e)

pub order_due :
    (n offset left : ℕ) (h : MdHeader)
    → h.msg_type ≡ Messages.new_order
    → offset + 45 ≤ n
    → is_due n offset (suc left) h ≡ true
order_due n offset left h e fits = ground (arith, e, fits)

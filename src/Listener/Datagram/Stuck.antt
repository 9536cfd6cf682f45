-- ===== src/Listener/Datagram/Stuck.antt =====
-- A snapshot that does not lead on.
use hftalgorithms.Base.{
  ℕ, zero, suc, ◌+◌, ◌%◌, ◌<◌, ◌≡◌, refl, ap, Option, none, some, false, arith, leb,
}
use hftalgorithms.Base.Int.{u32_mod}
use hftalgorithms.Base.Double.{Double}
use hftalgorithms.Base.Bytes.{Bytes}
use hftalgorithms.Base.Prefixes.{drop}
use hftalgorithms.Messages.{SnapshotInfo, MdHeader}
use hftalgorithms.Messages
use hftalgorithms.Messages.Wire.{read_md_header, read_snapshot_info}
use hftalgorithms.Symbols.{SymbolManager, reset_book}
use hftalgorithms.Symbols.Cache.{IsListed}
use hftalgorithms.Listener.{Listener, running, handled, begin_symbol}
use hftalgorithms.Listener.Listed.{IsSound, EndsSound}
use hftalgorithms.Listener.Sound.{begin_symbol-EndsSound}
use hftalgorithms.Listener.Datagram.{spent, snapshot_loop, is_info}

module _ {D : Type 0} ⦃d : Double D⦄ where
  runs_on :
      (o : Option (SymbolManager D)) (l : Listener D) (m0 : SymbolManager D)
      → EndsSound m0 (handled o l)
      → (l' : Listener D) × (handled o l ≡ running l') × IsSound m0 l'
  runs_on none l m0 h = absurd h
  runs_on (some m) l m0 h = (record l { sm = m }, refl, h)

  begins :
      (symbol : ℕ) (m0 : SymbolManager D) (l : Listener D)
      → EndsSound m0 (begin_symbol symbol l)
      → (l' : Listener D) × (begin_symbol symbol l ≡ running l') × IsSound m0 l'
  unfolding begin_symbol
  begins symbol m0 l h = runs_on (reset_book symbol l.sm) _ m0 h

  -- Where the bytes from an offset are the information on a listed symbol, without orders and with the
  -- length 0, the loop over the snapshot never ends: it uses up any fuel.
  pub snapshot_loop-stuck :
      (fuel : ℕ) (buf : Bytes) (n offset : ℕ) (s : SnapshotInfo) (rest rest' : Bytes)
      (m0 : SymbolManager D) (l : Listener D)
      → offset < n
      → read_md_header (drop offset buf) ≡ some (s.header, rest)
      → read_snapshot_info (drop offset buf) ≡ some (s, rest')
      → s.header.msg_type ≡ Messages.snapshot_info
      → s.header.length ≡ 0
      → (s.bid_count + s.ask_count) % u32_mod ≡ 0
      → IsListed s.symbol
      → IsSound m0 l
      → snapshot_loop fuel buf n offset 0 l ≡ spent
  unfolding snapshot_loop
  snapshot_loop-stuck zero buf n offset s rest rest' m0 l more e e' type size none_due h sound =
      refl
  snapshot_loop-stuck (suc fuel) buf n offset s rest rest' m0 l more e e' type size none_due h
        sound =
      let on : leb n offset ≡ false = ground (arith, more) in
      let here : offset + 0 ≡ offset = omega arith in
      let (l', begun, sound') = begins s.symbol m0 l (begin_symbol-EndsSound s.symbol l h sound) in
      rw (snapshot_loop, on, e, ap is_info type, e', begun, size, none_due, here)
        (snapshot_loop-stuck fuel buf n offset s rest rest' m0 l' more e e' type size none_due h
          sound')

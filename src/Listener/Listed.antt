-- ===== src/Listener/Listed.antt =====
-- Datagrams, orders and listeners of listener.cpp that name only symbols with a slot.
use hftalgorithms.Base.{
  ℕ, ◌≡◌, ◌≤◌, Option, none, some, List, [], ◌∷◌, ◌++◌, All, Bool-cases, inl, inr, subst, length,
  ◌==◌, Option-cases, refl,
}
use mathlib.Core.Option.{none-ne-some, some-injective}
use hftalgorithms.Base.Dict.{Dict, lookup, insert, erase}
use hftalgorithms.Symbols.{SymbolManager}
use hftalgorithms.Symbols.Cache.{
  IsReady, IsListed, Succeeds, Event, adds, deletes, modifies, trades, resets, fills, loads, step,
  run, step-Succeeds,
}
use hftalgorithms.Symbols.Cache
use hftalgorithms.Base.Double.{Double}
use hftalgorithms.Listener.{
  Message, new_order, delete_order, modify_order, trade, heartbeat, other_message, Item, info,
  order, other_item, Packet, market, snapshots, foreign, Source, Poll, failed, timed_out, ready,
  Listener, Status, running, stopped, fault, ◌>>=◌, handled, drop_symbol,
}

-- A message, an item and a datagram that name only listed symbols.
abbrev pub NamesListed : Message → Type 0
NamesListed (new_order msg) = IsListed msg.symbol
NamesListed (delete_order msg) = Unit
NamesListed (modify_order msg) = Unit
NamesListed (trade msg) = Unit
NamesListed heartbeat = Unit
NamesListed other_message = Unit

abbrev pub IsListedItem : Item → Type 0
IsListedItem (info s) = IsListed s.symbol
IsListedItem (order fits msg) = IsListed msg.symbol
IsListedItem other_item = Unit

abbrev pub IsListedPacket : Packet → Type 0
IsListedPacket (market msg) = NamesListed msg
IsListedPacket (snapshots items) = All IsListedItem items
IsListedPacket foreign = Unit

abbrev pub IsListedRead : Source × Option Packet → Type 0
IsListedRead (from, none) = Unit
IsListedRead (from, some packet) = IsListedPacket packet

abbrev pub IsListedPoll : Poll → Type 0
IsListedPoll failed = Unit
IsListedPoll timed_out = Unit
IsListedPoll (ready events) = All IsListedRead events

-- Every order of a map is for a listed symbol.
abbrev pub AreListed : Dict ℕ → Type 0
AreListed m = All (λ e. IsListed e.1) m

-- A call of the listener on the symbol manager, for a listed symbol.
abbrev pub IsFeed : Event → Type 0
IsFeed (adds id msg) = IsListed id
IsFeed (deletes id msg) = IsListed id
IsFeed (modifies id msg) = IsListed id
IsFeed (trades id msg) = IsListed id
IsFeed (resets id) = IsListed id
IsFeed (fills id side qty price) = ⊥
IsFeed (loads lines) = ⊥

-- The manager `m0` after such calls.
abbrev IsFed : {D : Type 0} → ⦃d : Double D⦄ → SymbolManager D → SymbolManager D → Type 0
IsFed m0 m = (es : List Event) × All IsFeed es × (run es m0 ≡ some m)

-- The listener has only made such calls since the manager was `m0`. The manager has its slots and its
-- caches are right, every order known is for a symbol with a slot,
-- the datagrams kept name only such, and at most 100001 are kept.
pub record IsSound {D : Type 0} ⦃d : Double D⦄ (m0 : SymbolManager D) (l : Listener D)
    : Type 0 where
  pub fed : IsFed m0 l.sm
  pub slots : IsReady l.sm
  pub orders : AreListed l.order_to_symbol
  pub kept : All IsListedPacket l.live_buffer
  pub bound : length l.live_buffer ≤ 100001

abbrev pub EndsSound : {D : Type 0} → ⦃d : Double D⦄ → SymbolManager D → Status D → Type 0
EndsSound m0 (running l) = IsSound m0 l
EndsSound m0 (stopped l) = IsSound m0 l
EndsSound m0 fault = ⊥

pub lookup-AreListed :
    (oid symbol : ℕ) (m : Dict ℕ) → AreListed m → lookup oid m ≡ some symbol → IsListed symbol
unfolding lookup
lookup-AreListed oid symbol [] h e = absurd (none-ne-some symbol e)
lookup-AreListed oid symbol ((j, v) ∷ m) h e = elim (Bool-cases (j == oid)) [
  | inl same ↦ subst IsListed (some-injective v symbol (rw (same, lookup) at e)) h.0
  | inr other ↦ lookup-AreListed oid symbol m h.1 (rw (other, lookup) at e)
]

pub insert-AreListed :
    (oid symbol : ℕ) (m : Dict ℕ) → IsListed symbol → AreListed m → AreListed (insert oid symbol m)
unfolding insert
insert-AreListed oid symbol [] k h = (k, tt)
insert-AreListed oid symbol ((j, v) ∷ m) k h = elim (Bool-cases (j == oid)) [
  | inl same ↦ rw (same, insert) (k, h.1)
  | inr other ↦ rw (other, insert) (h.0, insert-AreListed oid symbol m k h.1)
]

pub erase-AreListed : (oid : ℕ) (m : Dict ℕ) → AreListed m → AreListed (erase oid m)
unfolding erase
erase-AreListed oid [] h = tt
erase-AreListed oid ((j, v) ∷ m) h = elim (Bool-cases (j == oid)) [
  | inl same ↦ rw (same, erase) (erase-AreListed oid m h.1)
  | inr other ↦ rw (other, erase) (h.0, erase-AreListed oid m h.1)
]

pub drop-AreListed : (symbol : ℕ) (m : Dict ℕ) → AreListed m → AreListed (drop_symbol symbol m)
unfolding drop_symbol
drop-AreListed symbol [] h = tt
drop-AreListed symbol ((j, v) ∷ m) h = elim (Bool-cases (v == symbol)) [
  | inl same ↦ rw (same, drop_symbol) (drop-AreListed symbol m h.1)
  | inr other ↦ rw (other, drop_symbol) (h.0, drop-AreListed symbol m h.1)
]

pub kept-append :
    (xs : List Packet) (x : Packet)
    → All IsListedPacket xs
    → IsListedPacket x
    → All IsListedPacket (xs ++ x ∷ [])
kept-append [] x h k = (k, tt)
kept-append (y ∷ xs) x h k = (h.0, kept-append xs x h.1 k)

All-snoc : (es : List Event) (e : Event) → All IsFeed es → IsFeed e → All IsFeed (es ++ e ∷ [])
All-snoc [] e h k = (k, tt)
All-snoc (x ∷ es) e h k = (h.0, All-snoc es e h.1 k)

fed_listed : (e : Event) → IsFeed e → Cache.AreListed e
fed_listed (adds id msg) h = h
fed_listed (deletes id msg) h = h
fed_listed (modifies id msg) h = h
fed_listed (trades id msg) h = h
fed_listed (resets id) h = h
fed_listed (fills id side qty price) h = absurd h
fed_listed (loads lines) h = absurd h

module _ {D : Type 0} ⦃d : Double D⦄ where
  run_snoc :
      (es : List Event) (e : Event) (m1 m m' : SymbolManager D)
      → run es m1 ≡ some m
      → step e m ≡ some m'
      → run (es ++ e ∷ []) m1 ≡ some m'
  unfolding run
  run_snoc [] e m1 m m' h k = rw (some-injective m1 m h, run, k) refl
  run_snoc (x ∷ es) e m1 m m' h k = elim (Option-cases (step x m1)) [
    | inl inapt ↦ absurd (none-ne-some m (rw (inapt, run) at h))
    | inr (m2, done) ↦ rw (done, run) (run_snoc es e m2 m m' (rw (done, run) at h) k)
  ]

module _ {D : Type 0} ⦃d : Double D⦄ {m0 : SymbolManager D} where
  pub >>=-EndsSound :
      (s : Status D) (f : Listener D → Status D)
      → EndsSound m0 s
      → ((l : Listener D) → IsSound m0 l → EndsSound m0 (f l))
      → EndsSound m0 (s >>= f)
  >>=-EndsSound (running l) f h k = k l h
  >>=-EndsSound (stopped l) f h k = h
  >>=-EndsSound fault f h k = h

  pub handled-EndsSound :
      (e : Event) (l : Listener D)
      → IsFeed e
      → IsSound m0 l
      → EndsSound m0 (handled (step e l.sm) l)
  handled-EndsSound e l h s =
      let (m, done, r) = step-Succeeds e l.sm (fed_listed e h) s.slots in
      let (es, feeds, so_far) = s.fed in
      rw done (record {
        fed = (es ++ e ∷ [], All-snoc es e feeds h, run_snoc es e m0 l.sm m so_far done);
        slots = r;
        orders = s.orders;
        kept = s.kept;
        bound = s.bound;
      })

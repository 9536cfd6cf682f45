-- ===== src/Listener/Arrivals.antt =====
-- The datagrams that arrive at listener.cpp's sockets, as lists.
use hftalgorithms.Base.{
  ◌≡◌, refl, Bool, true, false, Option, none, some, List, [], ◌∷◌, ◌++◌, All, ap, ◌∙◌, sym, not,
  ◌&&◌, if◌then◌else◌,
}
use mathlib.Core.List.{append-nil}
use mathlib.Core.Bool.{true≢false}
use hftalgorithms.Listener.{
  Packet, market, snapshots, foreign, Source, live_sock, replay_sock, Poll, failed, timed_out,
  ready, Listener, is_live,
}

-- A datagram with the socket that it came from.
abbrev pub Arrival : Type 0
Arrival = Source × Packet

abbrev pub of_live : List Arrival → List Packet
of_live [] = []
of_live ((from, p) ∷ xs) = if is_live from then p ∷ of_live xs else of_live xs

abbrev pub of_replay : List Arrival → List Packet
of_replay [] = []
of_replay ((from, p) ∷ xs) = if is_live from then of_replay xs else p ∷ of_replay xs

abbrev pub arrived : List (Source × Option Packet) → List Arrival
arrived [] = []
arrived ((from, none) ∷ es) = arrived es
arrived ((from, some p) ∷ es) = (from, p) ∷ arrived es

abbrev pub arrivals : List Poll → List Arrival
arrivals [] = []
arrivals (failed ∷ ps) = arrivals ps
arrivals (timed_out ∷ ps) = arrivals ps
arrivals (ready es ∷ ps) = arrived es ++ arrivals ps

-- No snapshot comes from the live socket.
abbrev pub IsPlain : Packet → Type 0
IsPlain (market msg) = Unit
IsPlain (snapshots items) = ⊥
IsPlain foreign = Unit

abbrev pub IsPlainArrival : Arrival → Type 0
IsPlainArrival (live_sock, p) = IsPlain p
IsPlainArrival (replay_sock, p) = Unit

-- A buffer without snapshots, and none once the listener has caught up.
pub record IsTidy {D : Type 0} (l : Listener D) : Type 0 where
  pub plain : All IsPlain l.live_buffer
  pub clear : l.caught_up ≡ true → l.live_buffer ≡ []

pub of_live-append : (xs ys : List Arrival) → of_live (xs ++ ys) ≡ of_live xs ++ of_live ys
of_live-append [] ys = refl
of_live-append ((live_sock, p) ∷ xs) ys = ap (λ x. p ∷ x) (of_live-append xs ys)
of_live-append ((replay_sock, p) ∷ xs) ys = of_live-append xs ys

pub of_replay-append : (xs ys : List Arrival) → of_replay (xs ++ ys) ≡ of_replay xs ++ of_replay ys
of_replay-append [] ys = refl
of_replay-append ((live_sock, p) ∷ xs) ys = of_replay-append xs ys
of_replay-append ((replay_sock, p) ∷ xs) ys = ap (λ x. p ∷ x) (of_replay-append xs ys)

abbrev pub packets : List Arrival → List Packet
packets [] = []
packets ((from, p) ∷ xs) = p ∷ packets xs

pub packets-append : (xs ys : List Arrival) → packets (xs ++ ys) ≡ packets xs ++ packets ys
packets-append [] ys = refl
packets-append ((from, p) ∷ xs) ys = ap (λ x. p ∷ x) (packets-append xs ys)

-- The buffer as arrivals from the live socket.
abbrev pub kept : List Packet → List Arrival
kept [] = []
kept (p ∷ ps) = (live_sock, p) ∷ kept ps

pub of_live-kept : (ps : List Packet) → of_live (kept ps) ≡ ps
of_live-kept [] = refl
of_live-kept (p ∷ ps) = ap (λ x. p ∷ x) (of_live-kept ps)

pub of_replay-kept : (ps : List Packet) → of_replay (kept ps) ≡ []
of_replay-kept [] = refl
of_replay-kept (p ∷ ps) = of_replay-kept ps

pub packets-kept : (ps : List Packet) → packets (kept ps) ≡ ps
packets-kept [] = refl
packets-kept (p ∷ ps) = ap (λ x. p ∷ x) (packets-kept ps)

-- A datagram that finds the buffer empty, or comes from the replay socket, is out of no order.
pub in_order :
    (from : Source) (p : Packet) (before after : List Packet)
    → after ≡ before
    → (is_live from ≡ true → before ≡ [])
    → of_live ((from, p) ∷ []) ++ after ≡ before ++ of_live ((from, p) ∷ [])
in_order live_sock p before after same empty = rw (same, empty refl) refl
in_order replay_sock p before after same empty = same ∙ sym (append-nil before)

pub All-split :
    (xs ys : List Arrival)
    → All IsPlainArrival (xs ++ ys)
    → All IsPlainArrival xs × All IsPlainArrival ys
All-split [] ys h = (tt, h)
All-split (x ∷ xs) ys h = let (first, rest) = All-split xs ys h.1 in ((h.0, first), rest)

pub early_live :
    (caught_up : Bool) (from : Source)
    → (not caught_up && is_live from) ≡ true
    → (caught_up ≡ false) × (from ≡ live_sock)
early_live true from h = absurd (true≢false (sym h))
early_live false live_sock h = (refl, refl)
early_live false replay_sock h = absurd (true≢false (sym h))

pub late_live :
    (caught_up : Bool) (from : Source)
    → (not caught_up && is_live from) ≡ false
    → is_live from ≡ true
    → caught_up ≡ true
late_live true from h live = refl
late_live false live_sock h live = absurd (true≢false h)
late_live false replay_sock h live = absurd (true≢false (sym live))

pub IsPlain-append :
    (ps : List Packet) (p : Packet) → All IsPlain ps → IsPlain p → All IsPlain (ps ++ p ∷ [])
IsPlain-append [] p h k = (k, tt)
IsPlain-append (q ∷ ps) p h k = (h.0, IsPlain-append ps p h.1 k)

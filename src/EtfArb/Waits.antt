-- ===== src/EtfArb/Waits.antt =====
-- What the loops of etf_arb.cpp that wait can see of the positions.
use hftalgorithms.Base.{
  ℕ, zero, suc, ◌+◌, ◌≡◌, refl, Bool, true, false, none, some, List, [], ◌∷◌, map, All, arith,
  Option-cases, Bool-cases, inl, inr, if◌then◌else◌, sym, ◌∙◌, ◌==◌, ap, ◌<◌, ltb, ◌-◌, subst,
}
use mathlib.Core.Option.{none-ne-some, some-injective}
use hftalgorithms.Base.Int.{ℤ, eqb_ℤ, ltb_ℤ, pos}
use hftalgorithms.Base.Double.{Double}
use hftalgorithms.Base.Dict.{lookup, insert, lookup-insert}
use hftalgorithms.Symbols.{
  SymbolManager, SymbolSlot, get_position, with_slot, ids, dorm_ids, flush_top_of_book,
  on_new_order, on_delete_order, on_modify_order, on_trade, reset_book,
}
use hftalgorithms.Symbols.Cache
use hftalgorithms.Symbols.Cache.{IsReady, IsListed, run-IsReady}
use hftalgorithms.EtfArb.{
  Bot, World, Feed, adds, deletes, modifies, trades, resets, event, done, waiting, ◌>>=◌, reading,
  changing, is_flat, position_of, pause, now, await_flat,
}
use hftalgorithms.EtfArb.Trades.{all_filled, await_fills}
use hftalgorithms.EtfArb.Safe.{IsFair, IsSound}
use hftalgorithms.EtfArb.Runs.{ids-IsListed, dorms-IsListed}

-- The positions of two managers are the same.
abbrev pub AreSame : {D : Type 0} → SymbolManager D → SymbolManager D → Type 0
AreSame m m' = (id : ℕ) → get_position id m' ≡ get_position id m

eq_of_test : (a b : ℕ) → (a == b) ≡ true → a ≡ b
eq_of_test a b h = ground (arith, h)

module _ {D : Type 0} where
  with_slot-AreSame :
      (id : ℕ) (f : SymbolSlot → SymbolSlot) (m m' : SymbolManager D)
      → ((s : SymbolSlot) → (f s).position ≡ s.position)
      → with_slot id f m ≡ some m'
      → AreSame m m'
  unfolding with_slot get_position
  with_slot-AreSame id f m m' keeps e j = elim (Option-cases (lookup id m.slots)) [
    | inl gone ↦ absurd (none-ne-some m' (rw (gone, with_slot) at e))
    | inr (s, found) ↦
        let same =
          some-injective (record m { slots = insert id (f s) m.slots }) m'
            (rw (found, with_slot) at e) in
        ap (get_position j) (sym same) ∙ elim (Bool-cases (id == j)) [
          | inl here ↦
              let found_j : lookup j m.slots ≡ some s =
                ap (λ k. lookup k m.slots) (omega (arith, eq_of_test id j here)) ∙ found in
              rw (lookup-insert id j (f s) m.slots, here, found_j, get_position) (ap some (keeps s))
          | inr other ↦ rw (lookup-insert id j (f s) m.slots, other, get_position) refl
        ]
  ]

module _ {D : Type 0} ⦃d : Double D⦄ where
  -- The market data thread changes no position.
  step-AreSame :
      (e : Feed) (m m' : SymbolManager D) → Cache.step (event e) m ≡ some m' → AreSame m m'
  unfolding Cache.step on_new_order on_delete_order on_modify_order on_trade reset_book
      flush_top_of_book
  step-AreSame (adds id msg) m m' e = with_slot-AreSame id _ m m' (λ s. refl) e
  step-AreSame (deletes id msg) m m' e = with_slot-AreSame id _ m m' (λ s. refl) e
  step-AreSame (modifies id msg) m m' e = with_slot-AreSame id _ m m' (λ s. refl) e
  step-AreSame (trades id msg) m m' e = with_slot-AreSame id _ m m' (λ s. refl) e
  step-AreSame (resets id) m m' e = with_slot-AreSame id _ m m' (λ s. refl) e

  run-AreSame :
      (es : List Feed) (m m' : SymbolManager D)
      → Cache.run (map event es) m ≡ some m'
      → AreSame m m'
  unfolding Cache.run
  run-AreSame [] m m' e id = ap (get_position id) (sym (some-injective m m' e))
  run-AreSame (f ∷ es) m m' e id = elim (Option-cases (Cache.step (event f) m)) [
    | inl stuck ↦ absurd (none-ne-some m' (rw (stuck, Cache.run) at e))
    | inr (m1, first) ↦
        run-AreSame es m1 m' (rw (first, Cache.run) at e) id ∙ step-AreSame f m m1 first id
  ]

  -- Whether every position of a list is zero, and whether every one is at least a quantity.
  abbrev pub flat_of : List ℕ → SymbolManager D → Bool
  flat_of [] m = true
  flat_of (id ∷ js) m = elim (get_position id m) [
    | none ↦ false
    | some p ↦ if eqb_ℤ p (pos 0) then flat_of js m else false
  ]

  abbrev pub filled_of : List ℕ → ℤ → SymbolManager D → Bool
  filled_of [] qty m = true
  filled_of (id ∷ js) qty m = elim (get_position id m) [
    | none ↦ false
    | some p ↦ if ltb_ℤ p qty then false else filled_of js qty m
  ]

  flat_of-AreSame :
      (js : List ℕ) (m m' : SymbolManager D) → AreSame m m' → flat_of js m' ≡ flat_of js m
  flat_of-AreSame [] m m' same = refl
  flat_of-AreSame (id ∷ js) m m' same = elim (Option-cases (get_position id m)) [
    | inl gone ↦ rw (same id, gone, flat_of) refl
    | inr (p, e) ↦ rw (same id, e, flat_of-AreSame js m m' same, flat_of) refl
  ]

  filled_of-AreSame :
      (js : List ℕ) (qty : ℤ) (m m' : SymbolManager D)
      → AreSame m m'
      → filled_of js qty m' ≡ filled_of js qty m
  filled_of-AreSame [] qty m m' same = refl
  filled_of-AreSame (id ∷ js) qty m m' same = elim (Option-cases (get_position id m)) [
    | inl gone ↦ rw (same id, gone, filled_of) refl
    | inr (p, e) ↦ rw (same id, e, filled_of-AreSame js qty m m' same, filled_of) refl
  ]

  position_known :
      (id : ℕ) (m : SymbolManager D)
      → IsListed id
      → IsReady m
      → (p : ℤ) × (get_position id m ≡ some p)
  unfolding get_position
  position_known id m h r = let (s, e) = r.present id h in (s.position, rw (e, get_position) refl)

  is_flat-flat_of :
      (js : List ℕ) (b : Bot D)
      → All IsListed js
      → IsReady b.sm
      → is_flat js b ≡ done (flat_of js b.sm, b)
  unfolding is_flat position_of
  is_flat-flat_of [] b h r = refl
  is_flat-flat_of (id ∷ js) b h r =
      let (p, e) = position_known id b.sm h.0 r in
      let rest = is_flat-flat_of js b h.1 r in
      elim (Bool-cases (eqb_ℤ p (pos 0))) [
        | inl level ↦ rw (e, level, is_flat, reading, ◌>>=◌, flat_of) rest
        | inr other ↦ rw (e, other, is_flat, reading, ◌>>=◌, flat_of) refl
      ]

  all_filled-filled_of :
      (js : List ℕ) (qty : ℤ) (b : Bot D)
      → All IsListed js
      → IsReady b.sm
      → all_filled js qty b ≡ done (filled_of js qty b.sm, b)
  unfolding all_filled position_of
  all_filled-filled_of [] qty b h r = refl
  all_filled-filled_of (id ∷ js) qty b h r =
      let (p, e) = position_known id b.sm h.0 r in
      rw (e, all_filled-filled_of js qty b h.1 r, all_filled, reading, ◌>>=◌, filled_of) refl

-- A clock that has not passed the deadline yet passes it at a later reading.
not_first :
    (w : World) (n first deadline : ℕ)
    → deadline < w.clock (first + n)
    → ltb deadline (w.clock first) ≡ false
    → 0 < n
not_first w zero first deadline late early =
    let same : first + 0 ≡ first = omega arith in
    ground (arith, subst (λ k. deadline < w.clock k) same late, early)
not_first w (suc n) first deadline late early = omega arith

module _ {D : Type 0} ⦃d : Double D⦄ (w : World) (fair : IsFair w) where
  -- A pause ends, with the same positions and the same number of clock readings.
  paused :
      (b : Bot D)
      → IsSound b
      → (b' : Bot D) × (pause w b ≡ done (tt, b'))
        × IsSound b'
        × AreSame b.sm b'.sm
        × (b'.readings ≡ b.readings)
  unfolding pause
  paused b s =
      let (m, e, r) = run-IsReady (map event (w.market b.pauses)) b.sm (fair b.pauses) s.ready in
      (
        record b { pauses = b.pauses + 1; sm = m },
        rw (e, pause, changing, ◌>>=◌) refl,
        record { ready = r; arb_orders = s.arb_orders; mm_orders = s.mm_orders },
        run-AreSame (w.market b.pauses) b.sm m e,
        refl,
      )

  never_flat :
      (fuel : ℕ) (b : Bot D) → IsSound b → flat_of ids b.sm ≡ false → await_flat w fuel b ≡ waiting
  unfolding await_flat
  never_flat zero b s other = refl
  never_flat (suc fuel) b s other =
      let (b', e, s', same, n) = paused b s in
      rw (is_flat-flat_of ids b ids-IsListed s.ready, other, e, await_flat, ◌>>=◌)
        (never_flat fuel b' s' (flat_of-AreSame ids b.sm b'.sm same ∙ other))

  -- The wait for every position to be zero ends at once if all thirteen are zero, and otherwise never
  -- ends, however long it runs: nothing that it waits for is done while it waits. The bot is sound
  -- and the feed is for listed symbols.
  pub await_flat-stuck :
      (fuel : ℕ) (b : Bot D)
      → IsSound b
      → await_flat w (suc fuel) b ≡ (if flat_of ids b.sm then done (tt, b) else waiting)
  unfolding await_flat
  await_flat-stuck fuel b s = elim (Bool-cases (flat_of ids b.sm)) [
    | inl flat ↦ rw (is_flat-flat_of ids b ids-IsListed s.ready, flat, await_flat, ◌>>=◌) refl
    | inr other ↦ never_flat (suc fuel) b s other ∙ rw other refl
  ]

  -- When some dorm has fewer lots than are needed, the wait for the fills before /create runs into
  -- its deadline, and answers false, once the clock has passed the deadline at a reading that the
  -- fuel reaches: the fills that it waits for are not booked while it waits. The bot is sound and the
  -- feed is for listed symbols.
  pub await_fills-times_out :
      (fuel deadline n : ℕ) (qty : ℤ) (b : Bot D)
      → IsSound b
      → filled_of dorm_ids qty b.sm ≡ false
      → n < fuel
      → deadline < w.clock (b.readings + n)
      → (b' : Bot D) × (await_fills w fuel deadline qty b ≡ done (false, b'))
  unfolding await_fills now
  await_fills-times_out zero deadline n qty b s short few late = ground (arith, few)
  await_fills-times_out (suc fuel) deadline n qty b s short few late =
      let b0 = record b { readings = b.readings + 1 } in
      let s0 : IsSound b0 = record {
        ready = s.ready;
        arb_orders = s.arb_orders;
        mm_orders = s.mm_orders;
      } in
      elim (Bool-cases (ltb deadline (w.clock b.readings))) [
        | inl over ↦ (
          b0,
          rw
              (
                all_filled-filled_of dorm_ids qty b dorms-IsListed s.ready,
                short,
                over,
                await_fills,
                ◌>>=◌,
              )
              refl,
        )
        | inr early ↦
            let (b', e, s', same, count) = paused b0 s0 in
            let later = not_first w n b.readings deadline late early in
            let (out, done_e) =
              await_fills-times_out fuel deadline (n - 1) qty b' s'
                (filled_of-AreSame dorm_ids qty b.sm b'.sm same ∙ short) (omega (arith, few, later))
                (subst (λ k. deadline < w.clock k) (omega (arith, later, count)) late) in
            (
              out,
              rw
                  (
                    all_filled-filled_of dorm_ids qty b dorms-IsListed s.ready,
                    short,
                    early,
                    e,
                    await_fills,
                    ◌>>=◌,
                  )
                  done_e,
            )
      ]

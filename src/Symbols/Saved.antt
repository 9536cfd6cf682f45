-- ===== src/Symbols/Saved.antt =====
-- Saving the positions of symbol_manager.cpp and loading them back.
use hftalgorithms.Base.{
  ℕ, ◌≡◌, refl, Bool, true, false, none, some, List, [], ◌∷◌, arith, inl, inr, ◌==◌, ◌&&◌, ◌||◌,
  not, if◌then◌else◌, Bool-cases, ◌∙◌, All, Option, ap, subst,
}
use hftalgorithms.Base.Int.{ℤ, pos, eqb_ℤ, IsI32}
use hftalgorithms.Base.Double.{Double}
use hftalgorithms.Base.Dict.{lookup, insert, lookup-insert}
use hftalgorithms.Symbols.{
  SymbolManager, SymbolSlot, get_position, saved_lines, store_positions, with_slot, ids, init,
  make_slots, new_slot,
}
use hftalgorithms.Base.Text.{Text}
use hftalgorithms.Symbols.File.{IsLine, written, save_positions, load_positions, entries_in-written}
use hftalgorithms.Symbols.Cache.{IsReady, IsListed, insert-IsReady, init-IsReady}

-- The position of a slot that may be missing.
abbrev shown : Option SymbolSlot → ℤ
shown none = pos 0
shown (some s) = s.position

-- The position under an index, or 0.
abbrev pub position_of : {D : Type 0} → ℕ → SymbolManager D → ℤ
position_of id m = shown (lookup id m.slots)

-- The positions are int32_t, as they are in C++.
abbrev pub HasI32 : {D : Type 0} → SymbolManager D → Type 0
HasI32 m = (id : ℕ) → IsListed id → IsI32 (position_of id m)

abbrev member : ℕ → List ℕ → Bool
member id [] = false
member id (j ∷ js) = (j == id) || member id js

module _ {D : Type 0} where
  -- The saved lines of some ids, loaded into another manager, give those ids their positions, but
  -- for positions of 0.
  loaded :
      (js : List ℕ) (m m0 : SymbolManager D)
      → All IsListed js
      → IsReady m
      → IsReady m0
      → HasI32 m
      → (lines : List (ℕ × ℤ)) × (out : SymbolManager D) × (saved_lines js m ≡ some lines)
        × (store_positions lines m0 ≡ some out)
        × All IsLine lines
        × IsReady out
        × ((id : ℕ)
            → position_of id out ≡ (
                if member id js && not (eqb_ℤ (position_of id m) (pos 0))
                then position_of id m
                else position_of id m0))
  unfolding saved_lines store_positions get_position with_slot
  loaded [] m m0 h r r0 i = ([], m0, refl, refl, tt, r0, λ id. refl)
  loaded (j ∷ js) m m0 h r r0 i =
      let (s, e) = r.present j h.0 in
      elim (Bool-cases (eqb_ℤ s.position (pos 0))) [
        | inl flat ↦
            let (lines, out, saved, done, fine, ready, at) = loaded js m m0 h.1 r r0 i in
            (
              lines,
              out,
              rw (e, saved, flat, saved_lines, get_position) refl,
              done,
              fine,
              ready,
              λ id. ground (arith, at id, e, flat),
            )
        | inr other ↦
            let (s0, e0) = r0.present j h.0 in
            let s0' : SymbolSlot = record s0 { position = s.position } in
            let m0' = record m0 { slots = insert j s0' m0.slots } in
            let f = r0.cached j s0 e0 in
            let r0' =
              insert-IsReady j s0' m0
                (record {
                  bid_price = f.bid_price;
                  bid_qty = f.bid_qty;
                  ask_price = f.ask_price;
                  ask_qty = f.ask_qty;
                })
                r0 in
            let (lines, out, saved, done, fine, ready, at) = loaded js m m0' h.1 r r0' i in
            (
              (j, s.position) ∷ lines,
              out,
              rw (e, saved, other, saved_lines, get_position) refl,
              rw (e0, with_slot, store_positions) done,
              ((omega (arith, h.0), subst IsI32 (ap shown e) (i j h.0)), fine),
              ready,
              λ id. ground (arith, at id, e, other, lookup-insert j id s0' m0.slots),
            )
      ]

slots_flat :
    (js : List ℕ) (id : ℕ)
    → (elim (lookup id (make_slots js)) [ none ↦ pos 0 | some s ↦ s.position ]) ≡ pos 0
unfolding make_slots lookup
slots_flat [] id = refl
slots_flat (j ∷ js) id =
    ground (arith, slots_flat js id, lookup-insert j id (new_slot j) (make_slots js))

is_member : (id : ℕ) → IsListed id → member id ids ≡ true
is_member id h = ground (arith, h)

kept_or_flat :
    (z : ℤ) (listed : Bool)
    → listed ≡ true
    → (if listed && not (eqb_ℤ z (pos 0)) then z else pos 0) ≡ z
kept_or_flat z listed h = ground arith

module _ {D : Type 0} ⦃d : Double D⦄ where
  -- Saving the positions of a ready manager, all of them int32_t, and loading the text into a new one
  -- succeeds, leaves that one ready, and gives any listed id the position it had.
  pub saved_loaded :
      (m : SymbolManager D) (id : ℕ)
      → IsReady m
      → HasI32 m
      → IsListed id
      → (file : Text) × (out : SymbolManager D) × (save_positions m ≡ some file)
        × (load_positions file (init {D = D}) ≡ some out)
        × IsReady out
        × (position_of id out ≡ position_of id m)
  unfolding save_positions load_positions init
  saved_loaded m id r i h =
      let (lines, out, saved, done, fine, ready, at) =
        loaded ids m (init {D = D}) (omega arith) r init-IsReady i in
      (
        written lines,
        out,
        rw (save_positions, saved) refl,
        ap (λ ls. store_positions ls (init {D = D})) (entries_in-written lines fine) ∙ done,
        ready,
        at id ∙ rw slots_flat (kept_or_flat (position_of id m) (member id ids) (is_member id h)),
      )

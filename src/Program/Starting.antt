-- ===== src/Program/Starting.antt =====
-- What the program's start leads to, and how its parts fit together.
use hftalgorithms.Base.{
  ℕ, ◌≡◌, refl, Bool, true, false, Option, none, some, All, ◌&&◌, inl, inr, Bool-cases,
  if◌then◌else◌, arith, sym, subst, ap, ◌∙◌,
}
use hftalgorithms.Base.Int.{pos}
use hftalgorithms.Base.Text.{Text}
use hftalgorithms.Base.Double.{Double}
use mathlib.Core.Option.{none-ne-some}
use hftalgorithms.Base.Dict.{lookup}
use hftalgorithms.EtfClient.{EtfClient, new_client, health_check}
use hftalgorithms.OrderEntry.{OeClient}
use hftalgorithms.OrderEntry.Protocol.{LoginResponse}
use hftalgorithms.OrderEntry.Session.{is_success, log_in}
use hftalgorithms.OrderEntry.Wire.Requests.{new_oe_client}
use hftalgorithms.Symbols.{SymbolManager, init}
use hftalgorithms.Symbols.File.{load_positions, entries_in}
use hftalgorithms.Symbols.Cache.{IsReady, IsListed, store_positions-Succeeds, init-IsReady}
use hftalgorithms.Symbols.Saved.{saved_loaded, position_of, HasI32}
use hftalgorithms.EtfArb.{Bot, World}
use hftalgorithms.EtfArb.Safe.{IsSound, EndsSound, IsFair, >>-IsSafe}
use hftalgorithms.EtfArb.Basic.{pause-IsSafe}
use hftalgorithms.EtfArb.Making.{run_with_mm-EndsSound}
use hftalgorithms.Program.{
  Setting, Start, faulty, exits, starts, logged_in, start, trade, etf_url, team_name, new_arb,
  exchange_client_id, blue_tick, Ended, lost, returned, ended, main, interrupt, connect, listens,
}

-- The exchange answers the login with success.
abbrev welcomed : Option LoginResponse → Bool
welcomed none = false
welcomed (some r) = is_success r.status

-- The three services that the start asks for.
abbrev pub serves : World → Setting → Bool
serves w s =
    connect s
    && (welcomed s.welcome && health_check w.network (new_client etf_url team_name s.password))

log_in-answers :
    (s : Setting) (c : OeClient)
    → (log_in team_name s.password exchange_client_id s.welcome c).0 ≡ welcomed s.welcome
unfolding log_in
log_in-answers s c = ground arith

module _ {D : Type 0} ⦃d : Double D⦄ where
  abbrev outcome : Bool → SymbolManager D → OeClient → Setting → Start D
  outcome true sm oe s = starts (new_arb sm oe (new_client etf_url team_name s.password))
  outcome false sm oe s = exits 1

  start-outcome :
      (w : World) (s : Setting) (sm : SymbolManager D)
      → load_positions s.positions (init {D = D}) ≡ some sm
      → start w s
        ≡ outcome
            (serves w s)
            sm
            (log_in team_name s.password exchange_client_id s.welcome
              (new_oe_client s.unset_id s.inbox)).1
            s
  unfolding start logged_in
  start-outcome w s sm e = ground (arith, e, log_in-answers s (new_oe_client s.unset_id s.inbox))

  pub new_arb-IsSound :
      (sm : SymbolManager D) (oe : OeClient) (etf : EtfClient)
      → IsReady sm
      → IsSound (new_arb sm oe etf)
  unfolding lookup
  new_arb-IsSound sm oe etf r = record {
    ready = r;
    arb_orders = λ oid t e. absurd (none-ne-some t e);
    mm_orders = λ oid t e. absurd (none-ne-some t e);
  }

  -- The start leads to a sound bot if every service is there, and to the exit code 1 if not.
  abbrev StartsWell : World → Setting → Start D → Type 0
  StartsWell w s faulty = ⊥
  StartsWell w s (exits code) = (code ≡ 1) × (serves w s ≡ false)
  StartsWell w s (starts b) = IsSound b × (serves w s ≡ true)

  outcome-StartsWell :
      (w : World) (s : Setting) (sm : SymbolManager D) (oe : OeClient) (served : Bool)
      → serves w s ≡ served
      → IsReady sm
      → StartsWell w s (outcome served sm oe s)
  outcome-StartsWell w s sm oe true e r = (new_arb-IsSound sm oe _ r, e)
  outcome-StartsWell w s sm oe false e r = (refl, e)

  trade-EndsSound :
      (w : World) (fuel rounds : ℕ) (b : Bot D)
      → IsFair w
      → IsSound b
      → EndsSound (trade w fuel rounds b)
  unfolding trade
  trade-EndsSound w fuel rounds b fair sound =
      (>>-IsSafe (pause-IsSafe w fair) (record {
        ends = λ c s. run_with_mm-EndsSound w fair fuel (pos 7) blue_tick rounds c refl s;
      })).ends
        b sound

  abbrev pub EndsWell : World → Setting → Ended D → Type 0
  EndsWell w s lost = ⊥
  EndsWell w s (returned code) = (code ≡ 1) × (serves w s && listens s ≡ false)
  EndsWell w s (ended o) = EndsSound o × (serves w s && listens s ≡ true)

  ends_from :
      (w : World) (fuel rounds : ℕ) (s : Setting) (st : Start D)
      → IsFair w
      → StartsWell w s st
      → EndsWell w s (elim st [
        | faulty ↦ lost
        | exits code ↦ returned code
        | starts b ↦ if listens s then ended (trade w fuel rounds b) else returned 1
      ])
  ends_from w fuel rounds s faulty fair h = h
  ends_from w fuel rounds s (exits code) fair h = (h.0, rw h.1 refl)
  ends_from w fuel rounds s (starts b) fair h = elim (Bool-cases (listens s)) [
    | inl on ↦ rw on (trade-EndsSound w fuel rounds b fair h.0, rw (h.1, on) refl)
    | inr off ↦ rw off (refl, rw (h.1, off) refl)
  ]

  -- Interrupted at any point where its caches are right and its positions are int32_t, the program
  -- writes a text to positions.txt from which, if the services are there, it starts again with the
  -- position that every listed symbol had.
  pub interrupt-start :
      (w : World) (s : Setting) (b : Bot D) (id : ℕ)
      → IsSound b
      → HasI32 b.sm
      → IsListed id
      → serves w s ≡ true
      → (file : Text) × (b' : Bot D) × (interrupt b ≡ some file)
        × (start w (record s { positions = file }) ≡ starts b')
        × IsSound b'
        × (position_of id b'.sm ≡ position_of id b.sm)
  unfolding interrupt connect
  interrupt-start w s b id sound small listed served =
      let (file, sm, saved, loaded, ready, same) = saved_loaded b.sm id sound.ready small listed in
      let s' : Setting = record s { positions = file } in
      let oe : OeClient =
        (log_in team_name s.password exchange_client_id s.welcome
          (new_oe_client s.unset_id s.inbox)).1 in
      (
        file,
        new_arb sm oe (new_client etf_url team_name s.password),
        saved,
        start-outcome w s' sm loaded ∙ ap (λ t. outcome t sm oe s') served,
        new_arb-IsSound sm _ _ ready,
        same,
      )

module _ (D : Type 0) ⦃d : Double D⦄ where
  -- If the lines read from positions.txt name only listed symbols and the feed too, `main` never uses a symbol without a
  -- slot. It returns before it trades, with code 1, exactly if the connection, the login, the health
  -- check or a multicast socket fails; otherwise it trades, whatever the exchange, the service and the clock do, and where
  -- its loop ends the caches are right and the orders are for symbols with a slot.
  pub main-EndsWell :
      (w : World) (fuel rounds : ℕ) (s : Setting)
      → All (λ l. IsListed l.0) (entries_in s.positions)
      → IsFair w
      → EndsWell w s (main {D = D} w fuel rounds s)
  unfolding main load_positions
  main-EndsWell w fuel rounds s listed fair =
      let (sm, e, r) =
        store_positions-Succeeds (entries_in s.positions) (init {D = D}) listed init-IsReady in
      ends_from w fuel rounds s (start w s) fair (
        subst (StartsWell w s) (sym (start-outcome w s sm e))
          (outcome-StartsWell w s sm _ (serves w s) refl r))

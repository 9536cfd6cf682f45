-- ===== src/EtfArb.antt =====
-- etf_arb.h and etf_arb.cpp: the strategy that trades the ETF against its ten dorms, and makes a
-- market in BLUE. Its state has what it shares with the other parts; a run is a function on that
-- state. The market data thread, the clock and the ETF service are a parameter, the world: the feed
-- arrives while the strategy sleeps and between its rounds.
pub mod Trades
pub mod Loops
pub mod Market
pub mod Safe
mod Numbers
mod Sending
mod Numbered
mod Issued
pub mod Basic
mod Runs
pub mod Making
mod Sizes
mod Waits
mod Declined
mod Tests
use hftalgorithms.Base.{
  ℕ, zero, suc, ◌+◌, Bool, true, false, Option, none, some, List, [], ◌∷◌, ◌==◌, if◌then◌else◌, map,
}
use hftalgorithms.Base.Int.{ℤ, pos, ltb_ℤ, leb_ℤ, eqb_ℤ, abs_i32, u32_of}
use hftalgorithms.Base.Double.{Double}
use hftalgorithms.Base.Dict.{Dict, lookup, insert, erase}
use hftalgorithms.Base.Text.{Text}
use hftalgorithms.Messages.{Side, buy, sell, NewOrder, DeleteOrder, ModifyOrder, Trade}
use hftalgorithms.OrderEntry.{
  OeClient, send_new_order, send_new_order_no_wait, wait_for_response, wait_for_fill,
}
use hftalgorithms.OrderEntry.Protocol.{FillEvent, Callback, on_fill, on_reject, on_close}
use hftalgorithms.EtfClient.{EtfClient}
use hftalgorithms.Symbols.{
  SymbolManager, get_position, read_best_bid_price, read_best_ask_price, ids,
}
use hftalgorithms.Symbols
use hftalgorithms.Symbols.Cache
use hftalgorithms.Symbols.Cache.{Event}

-- A call of the market data thread on the symbol manager.
pub data Feed : Type 0 where
  adds : ℕ → NewOrder → Feed
  deletes : ℕ → DeleteOrder → Feed
  modifies : ℕ → ModifyOrder → Feed
  trades : ℕ → Trade → Feed
  resets : ℕ → Feed

abbrev pub event : Feed → Event
event (adds id msg) = Cache.adds id msg
event (deletes id msg) = Cache.deletes id msg
event (modifies id msg) = Cache.modifies id msg
event (trades id msg) = Cache.trades id msg
event (resets id) = Cache.resets id

-- What arrives at the n-th pause, the clock in milliseconds at its n-th reading, and the service.
pub record World : Type 0 where
  pub market : ℕ → List Feed
  pub clock : ℕ → ℕ
  pub network : Text → Text

abbrev pub OrderMap : Type 0
OrderMap = Dict (ℕ × Side)

-- An ETFArb with the objects that it refers to; `pauses` and `readings` count what it has taken of
-- the world.
pub record Bot (D : Type 0) : Type 0 where
  pub sm : SymbolManager D
  pub oe : OeClient
  pub etf : EtfClient
  pub order_map : OrderMap
  pub mm_order_map : OrderMap
  pub next_order_id : ℕ
  pub arb_in_progress : Bool
  pub arb_start_time : ℕ
  pub blue_bid_id : ℕ
  pub blue_ask_id : ℕ
  pub pauses : ℕ
  pub readings : ℕ

-- `fault` is an index with no slot; `waiting` is a loop that has used up its fuel.
pub data Outcome (A : Type 0) : Type 0 where
  done : A → Outcome A
  fault waiting : Outcome A

abbrev pub M : Type 0 → Type 0 → Type 0
M D A = Bot D → Outcome (A × Bot D)

module _ {D : Type 0} where
  infixl 5 ◌>>=◌ ◌>>◌
  abbrev pub ◌>>=◌ : {A B : Type 0} → M D A → (A → M D B) → M D B
  ◌>>=◌ m f b = elim (m b) [ done (a, b') ↦ f a b' | fault ↦ fault | waiting ↦ waiting ]

  abbrev pub ◌>>◌ : {B : Type 0} → M D (Unit {0}) → M D B → M D B
  ◌>>◌ m k = m >>= λ _. k

  abbrev pub pure : {A : Type 0} → A → M D A
  pure a b = done (a, b)

  -- A read of the bot's own fields, and a write.
  abbrev pub asks : {A : Type 0} → (Bot D → A) → M D A
  asks f b = done (f b, b)

  abbrev pub sets : (Bot D → Bot D) → M D (Unit {0})
  sets f b = done (tt, f b)

  -- A read of the symbol manager, and a change of it.
  abbrev pub reading : {A : Type 0} → (SymbolManager D → Option A) → M D A
  reading f b = elim (f b.sm) [ none ↦ fault | some a ↦ done (a, b) ]

  abbrev pub changing : (SymbolManager D → Option (SymbolManager D)) → M D (Unit {0})
  changing f b = elim (f b.sm) [ none ↦ fault | some m ↦ done (tt, record b { sm = m }) ]

  pub next_id : M D ℕ
  next_id b = done (b.next_order_id, record b { next_order_id = b.next_order_id + 1 })

  abbrev pub for_each : List ℕ → (ℕ → M D (Unit {0})) → M D (Unit {0})
  for_each [] f = pure tt
  for_each (id ∷ rest) f = do f id; for_each rest f

module _ {D : Type 0} ⦃d : Double D⦄ where
  -- The rest of the fill callback at an order of the strategy.
  pub fill_arb : FillEvent → ℕ × Side → M D (Unit {0})
  fill_arb f (symbol, side) = do
    changing (Symbols.on_fill symbol side f.qty f.price)
    if f.closed then sets (λ b. record b { order_map = erase f.order_id b.order_map }) else pure tt

  -- The rest of it at an order of the market maker.
  pub fill_mm : FillEvent → ℕ × Side → M D (Unit {0})
  fill_mm f (symbol, side) = do
    changing (Symbols.on_fill symbol side f.qty f.price)
    if f.closed
        then sets (λ b. record b {
          mm_order_map = erase f.order_id b.mm_order_map;
          blue_bid_id = if f.order_id == b.blue_bid_id then 0 else b.blue_bid_id;
          blue_ask_id = if f.order_id == b.blue_ask_id then 0 else b.blue_ask_id;
        })
        else pure tt

  -- The callback that the constructor sets.
  pub route_fill : FillEvent → M D (Unit {0})
  route_fill f b = elim (lookup f.order_id b.order_map) [
    | some target ↦ fill_arb f target b
    | none ↦ elim (lookup f.order_id b.mm_order_map) [
      | some target ↦ fill_mm f target b
      | none ↦ done (tt, b)
    ]
  ]

  -- A callback of the order entry client; the one for a closed order is main.cpp's.
  pub route : Callback → M D (Unit {0})
  route (on_fill f) = route_fill f
  route (on_reject order_id) = pure tt
  route (on_close order_id) = sets λ b. record b { mm_order_map = erase order_id b.mm_order_map }

  pub route_all : List Callback → M D (Unit {0})
  route_all [] = pure tt
  route_all (c ∷ cs) = do route c; route_all cs

  -- A call of the order entry client, and then its callbacks. They do not read the client, so that
  -- they can be made when it has returned.
  pub entering : {A : Type 0} → (OeClient → A × OeClient) → M D A
  entering f = do
    (a, c) ← asks λ b. f (record b.oe { calls = [] })
    sets λ b. record b { oe = c }
    route_all c.calls
    pure a

  -- The pieces that the operations share: an order that is recorded and sent without waiting, one
  -- that is sent and waited for, and the position of a symbol.
  pub position_of : ℕ → M D ℤ
  position_of id = reading (get_position id)

  pub place_no_wait : ℕ → Side → ℕ → ℤ → M D ℕ
  place_no_wait symbol side qty price = do
    oid ← next_id
    sets λ b. record b { order_map = insert oid (symbol, side) b.order_map }
    entering λ c. (tt, send_new_order_no_wait oid symbol side qty price c)
    pure oid

  pub place : ℕ → Side → ℕ → ℤ → M D (ℕ × Bool)
  place symbol side qty price = do
    oid ← next_id
    sets λ b. record b { order_map = insert oid (symbol, side) b.order_map }
    accepted ← entering (send_new_order oid symbol side qty price)
    pure (oid, accepted)

  -- An order against a position, at the best price of the other side, if there is one.
  pub flatten : ℕ → M D (Unit {0})
  flatten id = do
    position ← position_of id
    let long = ltb_ℤ (pos 0) position
    price ← (if long then reading (read_best_bid_price id) else reading (read_best_ask_price id))
    if eqb_ℤ position (pos 0)
        then pure tt
        else if leb_ℤ price (pos 0)
        then pure tt
        else do _ ← place id (if long then sell else buy) (u32_of (abs_i32 position)) price; pure tt

  -- The loop `for (id : ids) if (sm_.get_position(id) != 0) { flat = false; break; }`.
  pub is_flat : List ℕ → M D Bool
  is_flat [] = pure true
  is_flat (id ∷ rest) = do
    position ← position_of id
    if eqb_ℤ position (pos 0) then is_flat rest else pure false

module _ {D : Type 0} ⦃d : Double D⦄ (w : World) where
  -- The clock, in milliseconds.
  pub now : M D ℕ
  now b = done (w.clock b.readings, record b { readings = b.readings + 1 })

  -- A sleep: what the market data thread calls meanwhile.
  pub pause : M D (Unit {0})
  pause = do
    n ← asks λ b. b.pauses
    sets λ b. record b { pauses = b.pauses + 1 }
    changing (Cache.run (map event (w.market n)))

  -- The wait until every position is zero, on fuel.
  pub await_flat : ℕ → M D (Unit {0})
  await_flat zero b = waiting
  await_flat (suc fuel) b =
      (do flat ← is_flat ids; if flat then pure tt else do pause; await_flat fuel) b

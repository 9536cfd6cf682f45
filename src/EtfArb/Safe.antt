-- ===== src/EtfArb/Safe.antt =====
-- The invariant of the strategy of etf_arb.cpp, and the rules that take it through a run.
use hftalgorithms.Base.{
  ℕ, ◌+◌, ◌≡◌, refl, Bool, true, false, Option, some, List, [], ◌∷◌, map, All, Bool-cases, inl, inr,
  arith, if◌then◌else◌, ◌∙◌, ◌==◌, ◌&&◌, leb, sym,
}
use mathlib.Core.Option.{none-ne-some}
use hftalgorithms.Base.Dict.{lookup, erase, lookup-erase}
use hftalgorithms.Messages.{Side}
use hftalgorithms.OrderEntry.{OeClient}
use hftalgorithms.Symbols.{SymbolManager, SymbolSlot, get_position, cached}
use hftalgorithms.Symbols.Cache.{IsReady, IsListed, Succeeds, AreListed}
use hftalgorithms.EtfArb.{
  M, Bot, World, OrderMap, Outcome, done, fault, waiting, ◌>>=◌, ◌>>◌, pure, asks, sets, reading,
  changing, next_id, for_each, event,
}

-- Every order of a map is for a symbol that has a slot.
abbrev pub AreKnown : OrderMap → Type 0
AreKnown orders = (oid : ℕ) (t : ℕ × Side) → lookup oid orders ≡ some t → IsListed t.0

-- The manager has its slots and its caches are right, and so are the maps of the orders.
pub record IsSound {D : Type 0} (b : Bot D) : Type 0 where
  pub ready : IsReady b.sm
  pub arb_orders : AreKnown b.order_map
  pub mm_orders : AreKnown b.mm_order_map

-- The run is not at fault, and has left the bot sound if it has ended.
abbrev pub EndsSound : {D A : Type 0} → Outcome (A × Bot D) → Type 0
EndsSound (done (a, b)) = IsSound b
EndsSound fault = ⊥
EndsSound waiting = Unit

-- From a sound bot, the operation is not at fault, and leaves the bot sound if it ends.
pub record IsSafe {D A : Type 0} (m : M D A) : Type 0 where
  pub ends : (b : Bot D) → IsSound b → EndsSound (m b)

-- The feed is for listed symbols.
abbrev pub IsFair : World → Type 0
IsFair w = (n : ℕ) → All AreListed (map event (w.market n))

pub erase-AreKnown : (oid : ℕ) (orders : OrderMap) → AreKnown orders → AreKnown (erase oid orders)
erase-AreKnown oid orders h j t e = elim (Bool-cases (oid == j)) [
  | inl same ↦ absurd (none-ne-some t (sym (lookup-erase oid j orders ∙ rw same refl) ∙ e))
  | inr other ↦ h j t (sym (lookup-erase oid j orders ∙ rw other refl) ∙ e)
]

-- The ids of a list, tested.
abbrev pub are_listed : List ℕ → Bool
are_listed [] = true
are_listed (id ∷ js) = if leb 1 id && leb id 13 then are_listed js else false

pub All-IsListed : (js : List ℕ) → are_listed js ≡ true → All IsListed js
All-IsListed [] h = tt
All-IsListed (id ∷ js) h = (ground (arith, h), All-IsListed js (ground (arith, h)))

module _ {D : Type 0} where
  ends_on :
      {A B : Type 0} (o : Outcome (A × Bot D)) (f : A → M D B)
      → EndsSound o
      → ((a : A) → IsSafe (f a))
      → EndsSound (elim o [ done (a, b') ↦ f a b' | fault ↦ fault | waiting ↦ waiting ])
  ends_on (done (a, b)) f h k = (k a).ends b h
  ends_on fault f h k = absurd h
  ends_on waiting f h k = tt

  pub >>=-IsSafe :
      {A B : Type 0} {m : M D A} {f : A → M D B}
      → IsSafe m
      → ((a : A) → IsSafe (f a))
      → IsSafe (m >>= f)
  >>=-IsSafe {m = m} {f = f} h k = record { ends = λ b s. ends_on (m b) f (h.ends b s) k }

  pub >>-IsSafe :
      {B : Type 0} {m : M D (Unit {0})} {k : M D B} → IsSafe m → IsSafe k → IsSafe (m >> k)
  >>-IsSafe h k = >>=-IsSafe h (λ _. k)

  pub if-IsSafe :
      {A : Type 0} (c : Bool) {x y : M D A} → IsSafe x → IsSafe y → IsSafe (if c then x else y)
  if-IsSafe true h k = h
  if-IsSafe false h k = k

  pub asks-IsSafe : {A : Type 0} (f : Bot D → A) → IsSafe (asks f)
  asks-IsSafe f = record { ends = λ b s. s }

  pub pure-IsSafe : {A : Type 0} (a : A) → IsSafe {D = D} (pure a)
  pure-IsSafe a = record { ends = λ b s. s }

  pub reading-IsSafe :
      {A : Type 0} (f : SymbolManager D → Option A)
      → ((m : SymbolManager D) → IsReady m → (a : A) × (f m ≡ some a))
      → IsSafe (reading f)
  reading-IsSafe f h = record { ends = λ b s. let (a, e) = h b.sm s.ready in rw (e, reading) s }

  pub changing-IsSafe :
      (f : SymbolManager D → Option (SymbolManager D))
      → ((m : SymbolManager D) → IsReady m → Succeeds (f m))
      → IsSafe (changing f)
  changing-IsSafe f h = record {
    ends = λ b s.
        let (m, e, r) = h b.sm s.ready in
        rw (e, changing) (record { ready = r; arb_orders = s.arb_orders; mm_orders = s.mm_orders });
  }

  pub sets-IsSafe :
      (f : Bot D → Bot D) → ((b : Bot D) → IsSound b → IsSound (f b)) → IsSafe (sets f)
  sets-IsSafe f h = record { ends = h }

  pub for_each-IsSafe :
      (js : List ℕ) (f : ℕ → M D (Unit {0}))
      → All IsListed js
      → ((id : ℕ) → IsListed id → IsSafe (f id))
      → IsSafe (for_each js f)
  for_each-IsSafe [] f h k = pure-IsSafe tt
  for_each-IsSafe (id ∷ js) f h k = >>-IsSafe (k id h.0) (for_each-IsSafe js f h.1 k)

  -- The reads of a slot that is listed.
  pub position_of-IsSafe : (id : ℕ) → IsListed id → IsSafe {D = D} (reading (get_position id))
  unfolding get_position
  position_of-IsSafe id h =
      reading-IsSafe (get_position id)
        (λ m r. let (s, e) = r.present id h in (s.position, rw (e, get_position) refl))

  pub cached-IsSafe :
      {A : Type 0} (f : SymbolSlot → A) (id : ℕ)
      → IsListed id
      → IsSafe {D = D} (reading (cached f id))
  cached-IsSafe f id h =
      reading-IsSafe (cached f id)
        (λ m r. let (s, e) = r.present id h in (f s, rw (e, cached) refl))

  -- A write of fields that the invariant does not mention.
  pub oe-IsSafe : (c : OeClient) → IsSafe {D = D} (sets λ b. record b { oe = c })
  oe-IsSafe c = record {
    ends = λ b s. record { ready = s.ready; arb_orders = s.arb_orders; mm_orders = s.mm_orders };
  }

  pub progress-IsSafe : (v : Bool) → IsSafe {D = D} (sets λ b. record b { arb_in_progress = v })
  progress-IsSafe v = record {
    ends = λ b s. record { ready = s.ready; arb_orders = s.arb_orders; mm_orders = s.mm_orders };
  }

  pub start-IsSafe : (t : ℕ) → IsSafe {D = D} (sets λ b. record b { arb_start_time = t })
  start-IsSafe t = record {
    ends = λ b s. record { ready = s.ready; arb_orders = s.arb_orders; mm_orders = s.mm_orders };
  }

  pub pauses-IsSafe : IsSafe {D = D} (sets λ b. record b { pauses = b.pauses + 1 })
  pauses-IsSafe = record {
    ends = λ b s. record { ready = s.ready; arb_orders = s.arb_orders; mm_orders = s.mm_orders };
  }

  pub next_id-IsSafe : IsSafe {D = D} next_id
  unfolding next_id
  next_id-IsSafe = record {
    ends = λ b s. record { ready = s.ready; arb_orders = s.arb_orders; mm_orders = s.mm_orders };
  }

pub ruleset safe_rules = (
  >>=-IsSafe, >>-IsSafe, if-IsSafe, asks-IsSafe, pure-IsSafe, cached-IsSafe, next_id-IsSafe,
  oe-IsSafe, progress-IsSafe, start-IsSafe, pauses-IsSafe,
)

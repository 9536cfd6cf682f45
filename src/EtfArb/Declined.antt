-- ===== src/EtfArb/Declined.antt =====
-- The arbitrage of etf_arb.cpp that is not tried.
use hftalgorithms.Base.{ℕ, ◌≡◌, refl, Bool, true, false, if◌then◌else◌, ◌∙◌, sym, ap}
use mathlib.Core.Bool.{true≢false}
use hftalgorithms.Base.Int.{ℤ}
use hftalgorithms.Base.Double.{Double}
use hftalgorithms.Symbols.Nav.{ArbSnapshot}
use hftalgorithms.EtfArb.{M, Bot, World, Outcome, done, fault, waiting, ◌>>=◌, ◌>>◌, pure, asks}
use hftalgorithms.EtfArb.Trades.{creation_arb, create_and_sell, try_creation_arb}

-- The answer of a run that has ended is true.
abbrev IsYes : {D : Type 0} → Outcome (Bool × Bot D) → Type 0
IsYes (done (answer, b)) = answer ≡ true
IsYes fault = Unit
IsYes waiting = Unit

-- The operation never answers false.
record IsTrying {D : Type 0} (m : M D Bool) : Type 0 where
  yes : (b : Bot D) → IsYes (m b)

-- The operation answers false only where it has changed nothing.
pub record IsCareful {D : Type 0} (m : M D Bool) : Type 0 where
  pub unchanged : (b b' : Bot D) → m b ≡ done (false, b') → b' ≡ b

module _ {D : Type 0} where
  bind-IsYes :
      {A : Type 0} (o : Outcome (A × Bot D)) (f : A → M D Bool)
      → ((a : A) → IsTrying (f a))
      → IsYes (elim o [ done (a, b') ↦ f a b' | fault ↦ fault | waiting ↦ waiting ])
  bind-IsYes (done (a, b)) f k = (k a).yes b
  bind-IsYes fault f k = tt
  bind-IsYes waiting f k = tt

  >>=-IsTrying :
      {A : Type 0} (m : M D A) {f : A → M D Bool} → ((a : A) → IsTrying (f a)) → IsTrying (m >>= f)
  >>=-IsTrying m {f = f} k = record { yes = λ b. bind-IsYes (m b) f k }

  >>-IsTrying : (m : M D (Unit {0})) {k : M D Bool} → IsTrying k → IsTrying (m >> k)
  >>-IsTrying m h = >>=-IsTrying m (λ _. h)

  if-IsTrying :
      (c : Bool) {x y : M D Bool} → IsTrying x → IsTrying y → IsTrying (if c then x else y)
  if-IsTrying true h k = h
  if-IsTrying false h k = k

  pure-IsTrying : IsTrying {D = D} (pure true)
  pure-IsTrying = record { yes = λ b. refl }

  answer_of : Bool → Outcome (Bool × Bot D) → Bool
  answer_of other (done (a, b)) = a
  answer_of other fault = other
  answer_of other waiting = other

  state_of : Bot D → Outcome (Bool × Bot D) → Bot D
  state_of other (done (a, b)) = b
  state_of other fault = other
  state_of other waiting = other

  not_yes : (o : Outcome (Bool × Bot D)) (b b' : Bot D) → IsYes o → o ≡ done (false, b') → b' ≡ b
  unfolding answer_of
  not_yes (done (a, c)) b b' h e = absurd (true≢false (sym h ∙ ap (answer_of true) e))
  not_yes fault b b' h e = absurd (true≢false (ap (answer_of true) e))
  not_yes waiting b b' h e = absurd (true≢false (ap (answer_of true) e))

  trying-IsCareful : {m : M D Bool} → IsTrying m → IsCareful m
  trying-IsCareful {m = m} h = record { unchanged = λ b b' e. not_yes (m b) b b' (h.yes b) e }

  declining-IsCareful : IsCareful {D = D} (pure false)
  unfolding state_of
  declining-IsCareful = record { unchanged = λ b b' e. sym (ap (state_of b) e) }

  if-IsCareful :
      (c : Bool) {x y : M D Bool} → IsCareful x → IsCareful y → IsCareful (if c then x else y)
  if-IsCareful true h k = h
  if-IsCareful false h k = k

  asks-IsCareful :
      {A : Type 0} {g : Bot D → A} {f : A → M D Bool}
      → ((a : A) → IsCareful (f a))
      → IsCareful (asks g >>= f)
  asks-IsCareful {g = g} k = record { unchanged = λ b b' e. (k (g b)).unchanged b b' e }

module _ {D : Type 0} ⦃d : Double D⦄ (w : World) where
  selling-IsTrying :
      (fuel : ℕ) (qty : ℤ) (snap : ArbSnapshot) → IsTrying {D = D} (create_and_sell w fuel qty snap)
  unfolding create_and_sell
  selling-IsTrying fuel qty snap =
      search (>>=-IsTrying, >>-IsTrying, if-IsTrying, pure-IsTrying) depth 12

  creating-IsTrying :
      (fuel : ℕ) (qty : ℤ) (snap : ArbSnapshot) → IsTrying {D = D} (creation_arb w fuel qty snap)
  unfolding creation_arb
  creating-IsTrying fuel qty snap =
      search (>>=-IsTrying, >>-IsTrying, if-IsTrying, pure-IsTrying, selling-IsTrying) depth 16

  trying_creation-IsCareful :
      (fuel : ℕ) (snap : ArbSnapshot) → IsCareful {D = D} (try_creation_arb w fuel snap)
  unfolding try_creation_arb
  trying_creation-IsCareful fuel snap =
      search
        (asks-IsCareful, if-IsCareful, declining-IsCareful, trying-IsCareful, creating-IsTrying)
        depth 12

  -- When `try_creation_arb` answers false, and the loop goes on to the redemption, it has changed
  -- nothing: no order is sent or recorded, no order id is used, and no arbitrage is in progress that
  -- was not before.
  try_creation_arb-declined :
      (fuel : ℕ) (snap : ArbSnapshot) (b b' : Bot D)
      → try_creation_arb w fuel snap b ≡ done (false, b')
      → b' ≡ b
  try_creation_arb-declined fuel snap = (trying_creation-IsCareful fuel snap).unchanged

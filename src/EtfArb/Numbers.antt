-- ===== src/EtfArb/Numbers.antt =====
-- The ids of the orders that the strategy of etf_arb.cpp sends, and the rules that take them through
-- a run.
use hftalgorithms.Base.{
  ℕ, ◌+◌, ◌≤◌, ◌≡◌, Bool, true, false, Option, List, [], ◌∷◌, ◌++◌, arith, if◌then◌else◌,
  Option-cases, inl, inr,
}
use hftalgorithms.Base.Int.{ℤ, add_u32}
use hftalgorithms.Messages.{Side}
use hftalgorithms.OrderEntry.{OeClient, send_new_order_no_wait}
use hftalgorithms.OrderEntry.Protocol.{
  Request, login_msg, new_order_msg, delete_order_msg, modify_order_msg,
}
use hftalgorithms.OrderEntry.Cancelling.{deletes_from}
use hftalgorithms.Symbols.{SymbolManager}
use hftalgorithms.EtfArb.{
  M, Bot, Outcome, done, fault, waiting, ◌>>=◌, ◌>>◌, pure, asks, sets, reading, changing, for_each,
}

-- The ids of the new orders among these requests grow from one number and stay below another.
abbrev pub AreGrowing : ℕ → List Request → ℕ → Type 0
AreGrowing lo [] hi = lo ≤ hi
AreGrowing lo (new_order_msg m ∷ rs) hi = (lo ≤ m.order_id) × AreGrowing (m.order_id + 1) rs hi
AreGrowing lo (login_msg m ∷ rs) hi = AreGrowing lo rs hi
AreGrowing lo (delete_order_msg m ∷ rs) hi = AreGrowing lo rs hi
AreGrowing lo (modify_order_msg m ∷ rs) hi = AreGrowing lo rs hi

-- Where the operation ends, the ids of the bot's orders still grow and stay below its next id.
abbrev pub EndsGrowing : {D A : Type 0} → ℕ → Outcome (A × Bot D) → Type 0
EndsGrowing lo (done (a, b)) = AreGrowing lo b.oe.sent b.next_order_id
EndsGrowing lo fault = Unit
EndsGrowing lo waiting = Unit

pub record KeepsIds {D A : Type 0} (m : M D A) : Type 0 where
  pub ends : (lo : ℕ) (b : Bot D) → AreGrowing lo b.oe.sent b.next_order_id → EndsGrowing lo (m b)

lower : (lo mid hi : ℕ) (rs : List Request) → lo ≤ mid → AreGrowing mid rs hi → AreGrowing lo rs hi
lower lo mid hi [] h k = omega (arith, h, k)
lower lo mid hi (new_order_msg x ∷ rs) h k = (omega (arith, h, k.0), k.1)
lower lo mid hi (login_msg x ∷ rs) h k = lower lo mid hi rs h k
lower lo mid hi (delete_order_msg x ∷ rs) h k = lower lo mid hi rs h k
lower lo mid hi (modify_order_msg x ∷ rs) h k = lower lo mid hi rs h k

pub append-AreGrowing :
    (lo mid hi : ℕ) (rs new : List Request)
    → AreGrowing lo rs mid
    → AreGrowing mid new hi
    → AreGrowing lo (rs ++ new) hi
append-AreGrowing lo mid hi [] new h k = lower lo mid hi new h k
append-AreGrowing lo mid hi (new_order_msg x ∷ rs) new h k =
    (h.0, append-AreGrowing (x.order_id + 1) mid hi rs new h.1 k)
append-AreGrowing lo mid hi (login_msg x ∷ rs) new h k = append-AreGrowing lo mid hi rs new h k
append-AreGrowing lo mid hi (delete_order_msg x ∷ rs) new h k =
    append-AreGrowing lo mid hi rs new h k
append-AreGrowing lo mid hi (modify_order_msg x ∷ rs) new h k =
    append-AreGrowing lo mid hi rs new h k

pub deletes-AreGrowing :
    (session client seq_num hi : ℕ) (js : List ℕ)
    → AreGrowing hi (deletes_from session client seq_num js) hi
deletes-AreGrowing session client seq_num hi [] = omega arith
deletes-AreGrowing session client seq_num hi (id ∷ js) =
    deletes-AreGrowing session client (add_u32 seq_num 1) hi js

-- A new order under the next id.
pub sends_next :
    (lo n symbol : ℕ) (side : Side) (qty : ℕ) (price : ℤ) (c : OeClient)
    → AreGrowing lo c.sent n
    → AreGrowing lo (send_new_order_no_wait n symbol side qty price c).sent (n + 1)
unfolding send_new_order_no_wait
sends_next lo n symbol side qty price c h =
    append-AreGrowing lo n (n + 1) c.sent _ h (omega arith, omega arith)

module _ {D : Type 0} where
  pub ends_on :
      {A B : Type 0} (lo : ℕ) (o : Outcome (A × Bot D)) (f : A → M D B)
      → EndsGrowing lo o
      → ((a : A) → KeepsIds (f a))
      → EndsGrowing lo (elim o [ done (a, b') ↦ f a b' | fault ↦ fault | waiting ↦ waiting ])
  ends_on lo (done (a, b)) f h k = (k a).ends lo b h
  ends_on lo fault f h k = tt
  ends_on lo waiting f h k = tt

  pub >>=-KeepsIds :
      {A B : Type 0} {m : M D A} {f : A → M D B}
      → KeepsIds m
      → ((a : A) → KeepsIds (f a))
      → KeepsIds (m >>= f)
  >>=-KeepsIds {m = m} {f = f} h k = record {
    ends = λ lo b s. ends_on lo (m b) f (h.ends lo b s) k;
  }

  pub >>-KeepsIds :
      {B : Type 0} {m : M D (Unit {0})} {k : M D B} → KeepsIds m → KeepsIds k → KeepsIds (m >> k)
  >>-KeepsIds h k = >>=-KeepsIds h (λ _. k)

  pub if-KeepsIds :
      {A : Type 0} (c : Bool) {x y : M D A}
      → KeepsIds x
      → KeepsIds y
      → KeepsIds (if c then x else y)
  if-KeepsIds true h k = h
  if-KeepsIds false h k = k

  pub asks-KeepsIds : {A : Type 0} (f : Bot D → A) → KeepsIds (asks f)
  asks-KeepsIds f = record { ends = λ lo b s. s }

  pub pure-KeepsIds : {A : Type 0} (a : A) → KeepsIds {D = D} (pure a)
  pure-KeepsIds a = record { ends = λ lo b s. s }

  pub reading-KeepsIds : {A : Type 0} (f : SymbolManager D → Option A) → KeepsIds (reading f)
  reading-KeepsIds f = record {
    ends = λ lo b s. elim (Option-cases (f b.sm)) [
      | inl e ↦ rw (e, reading) tt
      | inr (a, e) ↦ rw (e, reading) s
    ];
  }

  pub changing-KeepsIds : (f : SymbolManager D → Option (SymbolManager D)) → KeepsIds (changing f)
  changing-KeepsIds f = record {
    ends = λ lo b s. elim (Option-cases (f b.sm)) [
      | inl e ↦ rw (e, changing) tt
      | inr (m, e) ↦ rw (e, changing) s
    ];
  }

  pub sets-KeepsIds :
      (f : Bot D → Bot D)
      → ((b : Bot D) → ((f b).oe.sent ≡ b.oe.sent) × ((f b).next_order_id ≡ b.next_order_id))
      → KeepsIds (sets f)
  sets-KeepsIds f h = record { ends = λ lo b s. rw ((h b).0, (h b).1) s }

  pub for_each-KeepsIds :
      (js : List ℕ) (f : ℕ → M D (Unit {0}))
      → ((id : ℕ) → KeepsIds (f id))
      → KeepsIds (for_each js f)
  for_each-KeepsIds [] f k = pure-KeepsIds tt
  for_each-KeepsIds (id ∷ js) f k = >>-KeepsIds (k id) (for_each-KeepsIds js f k)

pub ruleset keep_rules = (
  >>=-KeepsIds, >>-KeepsIds, if-KeepsIds, asks-KeepsIds, pure-KeepsIds, reading-KeepsIds,
  changing-KeepsIds,
)

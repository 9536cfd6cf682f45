-- ===== src/Symbols/Nav.antt =====
-- `snapshot` of symbol_manager.cpp and the sums it derives.
use hftalgorithms.Base.{
  ℕ, ◌+◌, ◌*◌, ◌≤◌, ◌<◌, ◌≡◌, refl, Bool, true, false, Option, none, some, List, [], ◌∷◌, ◌++◌,
  ◌||◌, arith, subst, ap, sym, ◌∙◌, inl, inr, if◌then◌else◌, Option-cases, length, length-append,
}
use mathlib.Core.Option.{some-injective, none-ne-some}
use mathlib.Core.List.{append-nil, append_assoc}
use hftalgorithms.Base.Int.{ℤ, pos, ◌+ℤ◌, eqb_ℤ, wrap32, pos_part, neg_part}
use hftalgorithms.Base.Dict.{lookup}
use hftalgorithms.Symbols.{SymbolManager, SymbolSlot, dorm_ids, sym_undy}

pub record DormData : Type 0 where
  pub best_bid_price : ℤ
  pub best_ask_price : ℤ
  pub best_bid_qty : ℕ
  pub best_ask_qty : ℕ
  pub position : ℤ

-- The part of `ArbSnapshot` that the loop over the dorms fills.
pub record DormSums : Type 0 where
  pub dorms : List DormData
  pub nav_ask : ℤ
  pub nav_bid : ℤ
  pub any_dorm_ask_missing : Bool
  pub any_dorm_bid_missing : Bool

-- `ArbSnapshot`; `undy` has the five fields `undy_...`.
pub record ArbSnapshot : Type 0 where
  pub sums : DormSums
  pub undy : DormData

abbrev pub read_slot : SymbolSlot → DormData
read_slot s = record {
  best_bid_price = s.best_bid_price;
  best_ask_price = s.best_ask_price;
  best_bid_qty = s.best_bid_qty;
  best_ask_qty = s.best_ask_qty;
  position = s.position;
}

-- The body of the loop, on what it has read of a slot.
unfoldable pub add_dorm : DormData → DormSums → DormSums
add_dorm x snap = record {
  dorms = snap.dorms ++ x ∷ [];
  nav_ask =
      if eqb_ℤ x.best_ask_price (pos 0)
      then snap.nav_ask
      else wrap32 (snap.nav_ask +ℤ x.best_ask_price);
  nav_bid =
      if eqb_ℤ x.best_bid_price (pos 0)
      then snap.nav_bid
      else wrap32 (snap.nav_bid +ℤ x.best_bid_price);
  any_dorm_ask_missing = if eqb_ℤ x.best_ask_price (pos 0) then true else snap.any_dorm_ask_missing;
  any_dorm_bid_missing = if eqb_ℤ x.best_bid_price (pos 0) then true else snap.any_dorm_bid_missing;
}

-- The loop over DORM_IDS.
unfoldable pub read_dorms : {D : Type 0} → List ℕ → SymbolManager D → DormSums → Option DormSums
read_dorms [] m snap = some snap
read_dorms (id ∷ ids) m snap = elim (lookup id m.slots) [
  | none ↦ none
  | some s ↦ read_dorms ids m (add_dorm (read_slot s) snap)
]

abbrev pub no_sums : DormSums
no_sums = record {
  dorms = [];
  nav_ask = pos 0;
  nav_bid = pos 0;
  any_dorm_ask_missing = false;
  any_dorm_bid_missing = false;
}

unfoldable pub snapshot : {D : Type 0} → SymbolManager D → Option ArbSnapshot
snapshot m = elim (read_dorms dorm_ids m no_sums) [
  | none ↦ none
  | some sums ↦ elim (lookup sym_undy m.slots) [
    | none ↦ none
    | some s ↦ some (record { sums = sums; undy = read_slot s })
  ]
]

-- The sum of the positive parts of a price over dorms.
abbrev pub sum_of : (DormData → ℤ) → List DormData → ℕ
sum_of f [] = 0
sum_of f (x ∷ xs) = pos_part (f x) + sum_of f xs

-- Some dorm has the price 0.
abbrev pub has_zero : (DormData → ℤ) → List DormData → Bool
has_zero f [] = false
has_zero f (x ∷ xs) = eqb_ℤ (f x) (pos 0) || has_zero f xs

-- A price from 0 up to 2 ^ 27, less one.
abbrev pub IsPrice : ℤ → Type 0
IsPrice z = (neg_part z ≡ 0) × (pos_part z < 0x800_0000)

-- The prices in all caches are such.
abbrev pub IsPriced : {D : Type 0} → SymbolManager D → Type 0
IsPriced m =
    (id : ℕ) (s : SymbolSlot)
    → lookup id m.slots ≡ some s
    → IsPrice s.best_ask_price × IsPrice s.best_bid_price

-- A sum over the dorms read, and the flag that one of the prices summed is missing.
pub record IsSum (f : DormData → ℤ) (dorms : List DormData) (nav : ℤ) (missing : Bool)
    : Type 0 where
  pub sum : nav ≡ pos (sum_of f dorms)
  pub flag : missing ≡ has_zero f dorms
  pub bound : sum_of f dorms ≤ length dorms * 0x800_0000

sum_of-append :
    (f : DormData → ℤ) (xs : List DormData) (x : DormData)
    → sum_of f (xs ++ x ∷ []) ≡ sum_of f xs + pos_part (f x)
sum_of-append f [] x = omega arith
sum_of-append f (y ∷ xs) x = omega (arith, sum_of-append f xs x)

has_zero-append :
    (f : DormData → ℤ) (xs : List DormData) (x : DormData)
    → has_zero f (xs ++ x ∷ []) ≡ (if eqb_ℤ (f x) (pos 0) then true else has_zero f xs)
has_zero-append f [] x = ground arith
has_zero-append f (y ∷ xs) x = ground (arith, has_zero-append f xs x)

-- One more dorm keeps the sum, while there are at most ten.
add-IsSum :
    (f : DormData → ℤ) (x : DormData) (dorms : List DormData) (nav : ℤ) (missing : Bool)
    → length dorms < 10
    → IsPrice (f x)
    → IsSum f dorms nav missing
    → IsSum f
        (dorms ++ x ∷ [])
        (if eqb_ℤ (f x) (pos 0) then nav else wrap32 (nav +ℤ f x))
        (if eqb_ℤ (f x) (pos 0) then true else missing)
unfolding wrap32 ◌+ℤ◌
add-IsSum f x dorms nav missing few price s = record {
  sum = ground (arith, s.sum, s.bound, sum_of-append f dorms x);
  flag = ground (arith, s.flag, has_zero-append f dorms x);
  bound = ground (arith, s.bound, sum_of-append f dorms x, length-append dorms (x ∷ []));
}

-- The sums and flags of a snapshot are those of the dorms it lists.
pub record IsSummed (snap : DormSums) : Type 0 where
  pub asks : IsSum (λ x. x.best_ask_price) snap.dorms snap.nav_ask snap.any_dorm_ask_missing
  pub bids : IsSum (λ x. x.best_bid_price) snap.dorms snap.nav_bid snap.any_dorm_bid_missing

-- The dorms of the ids, as their slots are when they are read.
abbrev pub slots_read : {D : Type 0} → List ℕ → SymbolManager D → List DormData
slots_read [] m = []
slots_read (id ∷ ids) m = elim (lookup id m.slots) [
  | none ↦ []
  | some s ↦ read_slot s ∷ slots_read ids m
]

-- The loop adds the slots of its ids, in order, and keeps the sums.
read_dorms-IsSummed :
    {D : Type 0} (ids : List ℕ) (m : SymbolManager D) (snap out : DormSums)
    → length snap.dorms + length ids ≤ 10
    → IsPriced m
    → IsSummed snap
    → read_dorms ids m snap ≡ some out
    → IsSummed out × (out.dorms ≡ snap.dorms ++ slots_read ids m)
unfolding read_dorms add_dorm
read_dorms-IsSummed [] m snap out few priced s e =
    let same = some-injective snap out e in
    (subst IsSummed same s, ap (λ x. x.dorms) (sym same) ∙ sym (append-nil snap.dorms))
read_dorms-IsSummed (id ∷ ids) m snap out few priced s e = elim (Option-cases (lookup id m.slots)) [
  | inl f ↦ absurd (none-ne-some out (rw (f, read_dorms) at e))
  | inr (x, f) ↦
      let prices = priced id x f in
      let d = read_slot x in
      let s' : IsSummed (add_dorm d snap) = record {
        asks =
            add-IsSum (λ x. x.best_ask_price) d snap.dorms snap.nav_ask snap.any_dorm_ask_missing
              (omega (arith, few)) prices.0 s.asks;
        bids =
            add-IsSum (λ x. x.best_bid_price) d snap.dorms snap.nav_bid snap.any_dorm_bid_missing
              (omega (arith, few)) prices.1 s.bids;
      } in
      let (t, same) =
        read_dorms-IsSummed ids m (add_dorm d snap) out
          (omega (arith, few, length-append snap.dorms (d ∷ []))) priced s'
          (rw (f, read_dorms) at e) in
      (t, rw (f, slots_read) (same ∙ append_assoc snap.dorms (d ∷ []) (slots_read ids m)))
]

-- While every cached price is from 0 up to 2 ^ 27 less one, the snapshot lists the ten dorms in the
-- order of their ids, each sum is exactly that of their prices, missing ones counting 0, and each
-- flag is set exactly if some dorm has no price on that side.
pub snapshot_sums :
    {D : Type 0} (m : SymbolManager D) (snap : ArbSnapshot)
    → IsPriced m
    → snapshot m ≡ some snap
    → IsSummed snap.sums × (snap.sums.dorms ≡ slots_read dorm_ids m)
unfolding snapshot
snapshot_sums m snap priced e = elim (Option-cases (read_dorms dorm_ids m no_sums)) [
  | inl f ↦ absurd (none-ne-some snap (rw (f, snapshot) at e))
  | inr (sums, f) ↦ elim (Option-cases (lookup sym_undy m.slots)) [
    | inl g ↦ absurd (none-ne-some snap (rw (f, g, snapshot) at e))
    | inr (s, g) ↦
        let same = ap (λ x. x.sums) (some-injective _ snap (rw (f, g, snapshot) at e)) in
        subst (λ x. IsSummed x × (x.dorms ≡ slots_read dorm_ids m)) same
          (read_dorms-IsSummed dorm_ids m no_sums sums (omega arith) priced
            (record {
              asks = record { sum = refl; flag = refl; bound = omega arith };
              bids = record { sum = refl; flag = refl; bound = omega arith };
            })
            f)
  ]
]

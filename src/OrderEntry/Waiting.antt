-- ===== src/OrderEntry/Waiting.antt =====
-- What the two waiting loops of oe_client.cpp do with the responses they read.
use hftalgorithms.Base.{
  ℕ, ◌+◌, ◌≡◌, refl, Bool, true, false, some, List, [], ◌∷◌, ◌++◌, arith, inl, inr, ltb, ◌==◌,
  if◌then◌else◌, ◌&&◌, Option-cases, Bool-cases, ap, sym, ◌∙◌,
}
use mathlib.Core.List.{append-nil, append_assoc}
use hftalgorithms.OrderEntry.Protocol.{
  Response, acked, rejected, filled, order_closed, unhandled, Callback, on_fill, on_reject,
  on_close, OrderClosed,
}
use hftalgorithms.OrderEntry.{
  OeClient, is_in, add_live, drop_live, is_closed, fill_event, received, response_answer,
  await_response, wait_for_response, fill_answer, await_fill, wait_for_fill,
}

-- The callbacks that responses are due, in order.
abbrev pub heard : List (ℕ × Response) → List Callback
heard [] = []
heard ((t, acked a) ∷ ms) = heard ms
heard ((t, rejected r) ∷ ms) = on_reject r.order_id ∷ heard ms
heard ((t, filled f) ∷ ms) = on_fill (fill_event f) ∷ heard ms
heard ((t, order_closed o) ∷ ms) = on_close o.order_id ∷ heard ms
heard ((t, unhandled u) ∷ ms) = heard ms

-- Whether an order is live after responses, if it was before: the last acknowledgement or closing of
-- it decides.
abbrev pub still_live : ℕ → List (ℕ × Response) → Bool → Bool
still_live id [] b = b
still_live id ((t, acked a) ∷ ms) b = still_live id ms (if a.order_id == id then true else b)
still_live id ((t, rejected r) ∷ ms) b = still_live id ms b
still_live id ((t, filled f) ∷ ms) b =
    still_live id ms (if is_closed f && (f.order_id == id) then false else b)
still_live id ((t, order_closed o) ∷ ms) b =
    still_live id ms (if o.order_id == id then false else b)
still_live id ((t, unhandled u) ∷ ms) b = still_live id ms b

-- The client has read a first part of the responses, leaves the rest, has made exactly the callbacks
-- of that part in order, and counts an order as live exactly if that part says so.
abbrev pub Took : ℕ → OeClient → OeClient → List (ℕ × Response) → Type 0
Took id c out ms =
    (seen : List (ℕ × Response)) × (ms ≡ seen ++ out.inbox)
    × (out.calls ≡ c.calls ++ heard seen)
    × (is_in id out.live_orders ≡ still_live id seen (is_in id c.live_orders))

is_in-add :
    (id j : ℕ) (js : List ℕ) → is_in id (add_live j js) ≡ (if j == id then true else is_in id js)
unfolding add_live
is_in-add id j js = ground arith

is_in-drop :
    (id j : ℕ) (js : List ℕ) → is_in id (drop_live j js) ≡ (if j == id then false else is_in id js)
unfolding drop_live
is_in-drop id j [] = ground arith
is_in-drop id j (k ∷ js) = ground (arith, is_in-drop id j js)

received-live :
    (id t : ℕ) (m : Response) (c : OeClient)
    → is_in id (received m c).live_orders ≡ still_live id ((t, m) ∷ []) (is_in id c.live_orders)
unfolding received
received-live id t (acked a) c = is_in-add id a.order_id c.live_orders
received-live id t (rejected r) c = refl
received-live id t (filled f) c = ground (arith, is_in-drop id f.order_id c.live_orders)
received-live id t (order_closed o) c = is_in-drop id o.order_id c.live_orders
received-live id t (unhandled u) c = refl

received-calls :
    (t : ℕ) (m : Response) (c : OeClient) → (received m c).calls ≡ c.calls ++ heard ((t, m) ∷ [])
unfolding received
received-calls t (acked a) c = sym (append-nil c.calls)
received-calls t (rejected r) c = refl
received-calls t (filled f) c = refl
received-calls t (order_closed o) c = refl
received-calls t (unhandled u) c = sym (append-nil c.calls)

heard-cons :
    (t : ℕ) (m : Response) (ms : List (ℕ × Response))
    → heard ((t, m) ∷ ms) ≡ heard ((t, m) ∷ []) ++ heard ms
heard-cons t (acked a) ms = refl
heard-cons t (rejected r) ms = refl
heard-cons t (filled f) ms = refl
heard-cons t (order_closed o) ms = refl
heard-cons t (unhandled u) ms = refl

still_live-cons :
    (id t : ℕ) (m : Response) (ms : List (ℕ × Response)) (b : Bool)
    → still_live id ((t, m) ∷ ms) b ≡ still_live id ms (still_live id ((t, m) ∷ []) b)
still_live-cons id t (acked a) ms b = refl
still_live-cons id t (rejected r) ms b = refl
still_live-cons id t (filled f) ms b = refl
still_live-cons id t (order_closed o) ms b = refl
still_live-cons id t (unhandled u) ms b = refl

Took-none :
    (id : ℕ) (c : OeClient) (ms : List (ℕ × Response)) → Took id c (record c { inbox = ms }) ms
Took-none id c ms = ([], refl, sym (append-nil c.calls), refl)

Took-one :
    (id t : ℕ) (m : Response) (c out : OeClient) (ms : List (ℕ × Response))
    → Took id (received m c) out ms
    → Took id c out ((t, m) ∷ ms)
Took-one id t m c out ms (seen, split, calls, live) = (
  (t, m) ∷ seen,
  ap (λ x. (t, m) ∷ x) split,
  calls ∙ rw (received-calls t m c, heard-cons t m seen) (append_assoc c.calls _ (heard seen)),
  live ∙ rw (received-live id t m c, still_live-cons id t m seen) refl,
)

Took-last :
    (id t : ℕ) (m : Response) (c : OeClient) (ms : List (ℕ × Response))
    → Took id c (record (received m c) { inbox = ms }) ((t, m) ∷ ms)
Took-last id t m c ms =
    Took-one id t m c (record (received m c) { inbox = ms }) ms (Took-none id (received m c) ms)

await_response-Took :
    (id expected : ℕ) (ms : List (ℕ × Response)) (c : OeClient)
    → Took id c (await_response expected ms c).1 ms
unfolding await_response
await_response-Took id expected [] c = Took-none id c []
await_response-Took id expected ((t, m) ∷ ms) c = elim (Option-cases (response_answer expected m)) [
  | inl e ↦
      rw (e, await_response)
        (Took-one id t m c (await_response expected ms (received m c)).1 ms
          (await_response-Took id expected ms (received m c)))
  | inr (answer, e) ↦ rw (e, await_response) (Took-last id t m c ms)
]

await_fill-Took :
    (id expected deadline : ℕ) (ms : List (ℕ × Response)) (c : OeClient)
    → Took id c (await_fill expected deadline ms c).1 ms
unfolding await_fill
await_fill-Took id expected deadline [] c = Took-none id c []
await_fill-Took id expected deadline ((t, m) ∷ ms) c = elim (Bool-cases (ltb deadline t)) [
  | inl late ↦ rw (late, await_fill) (Took-none id c ((t, m) ∷ ms))
  | inr early ↦ elim (Option-cases (fill_answer expected m)) [
    | inl e ↦
        rw (early, e, await_fill)
          (Took-one id t m c (await_fill expected deadline ms (received m c)).1 ms
            (await_fill-Took id expected deadline ms (received m c)))
    | inr (answer, e) ↦ rw (early, e, await_fill) (Took-last id t m c ms)
  ]
]

-- However `wait_for_response` and `wait_for_fill` end, the responses are split into those read and
-- those left for the next call, every callback due for those read has been made, in order and once,
-- and an order is live exactly if the last acknowledgement or closing read of it says so, or no such
-- was read and it was live before.
pub nothing_lost :
    (now expected id : ℕ) (c : OeClient)
    → Took id c (wait_for_response expected c).1 c.inbox
      × Took id c (wait_for_fill now expected c).1 c.inbox
unfolding wait_for_response wait_for_fill
nothing_lost now expected id c =
    (await_response-Took id expected c.inbox c, await_fill-Took id expected (now + 5000) c.inbox c)

-- At one response, a `true` of `wait_for_fill` says that the order is no longer live.
answer_gone :
    (expected : ℕ) (m : Response) (c : OeClient)
    → fill_answer expected m ≡ some true
    → is_in expected (received m c).live_orders ≡ false
unfolding fill_answer received
answer_gone expected (acked a) c e = ground (arith, e)
answer_gone expected (rejected r) c e = ground (arith, e)
answer_gone expected (filled f) c e =
    ground (arith, e, is_in-drop expected f.order_id c.live_orders)
answer_gone expected (order_closed o) c e = ground (arith, e)
answer_gone expected (unhandled u) c e = ground (arith, e)

await_fill-gone :
    (expected deadline : ℕ) (ms : List (ℕ × Response)) (c : OeClient)
    → (await_fill expected deadline ms c).0 ≡ true
    → is_in expected (await_fill expected deadline ms c).1.live_orders ≡ false
unfolding await_fill
await_fill-gone expected deadline [] c e = ground (arith, e)
await_fill-gone expected deadline ((t, m) ∷ ms) c e = elim (Bool-cases (ltb deadline t)) [
  | inl late ↦ ground (arith, e, late)
  | inr early ↦ elim (Option-cases (fill_answer expected m)) [
    | inl f ↦
        rw (early, f, await_fill)
          (await_fill-gone expected deadline ms (received m c) (rw (early, f, await_fill) at e))
    | inr (answer, f) ↦
        rw (early, f, await_fill)
          (answer_gone expected m c (f ∙ ap some (rw (early, f, await_fill) at e)))
  ]
]

-- When `wait_for_fill` answers true, the order it waited for is no longer live.
filled_is_gone :
    (now expected : ℕ) (c : OeClient)
    → (wait_for_fill now expected c).0 ≡ true
    → is_in expected (wait_for_fill now expected c).1.live_orders ≡ false
unfolding wait_for_fill
filled_is_gone now expected c e = await_fill-gone expected (now + 5000) c.inbox c e

-- If the next response closes another order, `wait_for_response` answers true although nothing has
-- been heard of the order it waits for, which is not live if it was not before.
other_close_answers :
    (expected now : ℕ) (o : OrderClosed) (ms : List (ℕ × Response)) (c : OeClient)
    → c.inbox ≡ (now, order_closed o) ∷ ms
    → is_in expected c.live_orders ≡ false
    → ((wait_for_response expected c).0 ≡ true)
      × (is_in expected (wait_for_response expected c).1.live_orders ≡ false)
unfolding wait_for_response await_response response_answer received
other_close_answers expected now o ms c e dead =
    rw e (refl, is_in-drop expected o.order_id c.live_orders ∙ ground (arith, dead))

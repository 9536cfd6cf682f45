-- ===== src/Listener/Order.antt =====
-- The order in which listener.cpp applies the datagrams of its two sockets, against a listener that
-- processes one list of datagrams as they come.
use hftalgorithms.Base.{
  ◌+◌, ◌≡◌, refl, Bool, true, false, Option, none, some, List, [], ◌∷◌, ◌++◌, All, Bool-cases, inl,
  inr, ap, ◌∙◌, sym, subst, not, ◌&&◌, ltb, length, if◌then◌else◌,
}
use mathlib.Core.List.{append-nil}
use mathlib.Core.Bool.{true≢false}
use hftalgorithms.Listener.{
  Packet, market, snapshots, foreign, Source, live_sock, replay_sock, Poll, failed, timed_out,
  ready, Listener, Status, running, stopped, fault, ◌>>=◌, dispatch, drain, process, receive,
  receive_all, count_silence, round, run, is_live,
}
use hftalgorithms.Listener.Same.{
  IsSame, AreSame, KeepsBuffer, >>=-AreSame, process-KeepsBuffer, dispatch-AreSame,
}
use hftalgorithms.Listener.Arrivals.{
  Arrival, of_live, of_replay, arrived, arrivals, IsPlain, IsPlainArrival, IsTidy, kept,
  of_live-kept, of_replay-kept, packets-kept, in_order, All-split, early_live, late_live,
  IsPlain-append,
}
use hftalgorithms.Listener.Explained.{apply, refl-IsSame, bind_append, Explains, RunsOn, >>=-RunsOn}

module _ {D : Type 0} where
  -- A datagram that is processed at once.
  direct_runs :
      (from : Source) (p : Packet) (l : Listener D) (s : Status D)
      → process p l ≡ s
      → KeepsBuffer l s
      → (is_live from ≡ true → l.live_buffer ≡ [])
      → IsTidy l
      → RunsOn l ((from, p) ∷ []) s
  direct_runs from p l (stopped m) e keeps empty tidy = tt
  direct_runs from p l fault e keeps empty tidy = tt
  direct_runs from p l (running m) e keeps empty tidy = (
    record {
      log = (from, p) ∷ [];
      effect = rw e (refl-IsSame m);
      lives = in_order from p l.live_buffer m.live_buffer keeps.0 empty;
      replays = refl;
    },
    record {
      plain = subst (All IsPlain) (sym keeps.0) tidy.plain;
      clear = λ c. keeps.0 ∙ tidy.clear (sym keeps.1 ∙ c);
    },
  )

  no_log :
      (k l : Listener D) (xs : List Arrival)
      → IsSame k l
      → l.live_buffer ≡ k.live_buffer ++ of_live xs
      → of_replay xs ≡ []
      → Explains k l xs
  no_log k l xs s b r = record { log = []; effect = s; lives = b; replays = sym r }

  if_RunsOn :
      (l : Listener D) (xs : List Arrival) (c : Bool) (s t : Status D)
      → (c ≡ true → RunsOn l xs s)
      → (c ≡ false → RunsOn l xs t)
      → RunsOn l xs (if c then s else t)
  if_RunsOn l xs true s t h k = h refl
  if_RunsOn l xs false s t h k = k refl

  -- A datagram that is kept.
  kept_runs :
      (from : Source) (p : Packet) (l : Listener D)
      → (l.caught_up ≡ false) × (from ≡ live_sock)
      → IsPlainArrival (from, p)
      → IsTidy l
      → RunsOn l ((from, p) ∷ []) (running (record l { live_buffer = l.live_buffer ++ p ∷ [] }))
  kept_runs live_sock p l early plain tidy = (
    no_log l (record l { live_buffer = l.live_buffer ++ p ∷ [] }) ((live_sock, p) ∷ [])
        (record { sm = refl; orders = refl }) refl refl,
    record {
      plain = IsPlain-append l.live_buffer p tidy.plain plain;
      clear = λ c. absurd (true≢false (sym c ∙ early.0));
    },
  )
  kept_runs replay_sock p l early plain tidy = absurd (true≢false (sym (ap is_live early.1)))

  receive_runs :
      (from : Source) (p : Packet) (l : Listener D)
      → IsPlainArrival (from, p)
      → IsTidy l
      → RunsOn l ((from, p) ∷ []) (receive from p l)
  unfolding receive
  receive_runs from p l plain tidy =
      if_RunsOn l _ (not l.caught_up && is_live from) _ (process p l)
        (λ keep.
          if_RunsOn l _ (ltb 100000 (length l.live_buffer)) (stopped l) _ (λ full. tt)
            (λ room. kept_runs from p l (early_live l.caught_up from keep) plain tidy))
        (λ now.
          direct_runs from p l (process p l) refl (process-KeepsBuffer p l)
            (λ live. tidy.clear (late_live l.caught_up from now live)) tidy)

  here_RunsOn : (l : Listener D) → IsTidy l → RunsOn l [] (running l)
  here_RunsOn l tidy = (no_log l l [] (refl-IsSame l) (sym (append-nil l.live_buffer)) refl, tidy)

  receive_all_runs :
      (es : List (Source × Option Packet)) (l : Listener D)
      → All IsPlainArrival (arrived es)
      → IsTidy l
      → RunsOn l (arrived es) (receive_all es l)
  unfolding receive_all
  receive_all_runs [] l plain tidy = here_RunsOn l tidy
  receive_all_runs ((from, none) ∷ es) l plain tidy = receive_all_runs es l plain tidy
  receive_all_runs ((from, some p) ∷ es) l plain tidy =
      >>=-RunsOn l ((from, p) ∷ []) (arrived es) (receive from p l) (receive_all es)
        (receive_runs from p l plain.0 tidy) (λ m t. receive_all_runs es m plain.1 t)

  drain_same :
      (ps : List Packet) (k l : Listener D)
      → All IsPlain ps
      → IsSame k l
      → AreSame (apply ps k) (drain ps l)
  unfolding drain process
  drain_same [] k l plain s = record { sm = s.sm; orders = s.orders }
  drain_same (market msg ∷ ps) k l plain s =
      subst (λ x. AreSame x (dispatch msg l >>= drain ps))
        (bind_append (dispatch msg k) _ _ (apply ps) (λ m. refl))
        (>>=-AreSame (dispatch msg k) (dispatch msg l) _ (drain ps) (dispatch-AreSame msg k l s)
          (λ k' l' s'. drain_same ps _ l' plain.1 (record { sm = s'.sm; orders = s'.orders })))
  drain_same (snapshots items ∷ ps) k l plain s = absurd plain.0
  drain_same (foreign ∷ ps) k l plain s = drain_same ps k l plain.1 s

  abbrev IsDrained : Status D → Type 0
  IsDrained (running l) = l.live_buffer ≡ []
  IsDrained (stopped l) = Unit
  IsDrained fault = Unit

  bind-IsDrained :
      (s : Status D) (f : Listener D → Status D)
      → ((l : Listener D) → IsDrained (f l))
      → IsDrained (s >>= f)
  bind-IsDrained (running l) f h = h l
  bind-IsDrained (stopped l) f h = tt
  bind-IsDrained fault f h = tt

  drain-IsDrained : (ps : List Packet) (l : Listener D) → IsDrained (drain ps l)
  unfolding drain
  drain-IsDrained [] l = refl
  drain-IsDrained (market msg ∷ ps) l =
      bind-IsDrained (dispatch msg l) (drain ps) (drain-IsDrained ps)
  drain-IsDrained (snapshots items ∷ ps) l = drain-IsDrained ps l
  drain-IsDrained (foreign ∷ ps) l = drain-IsDrained ps l

  drained_runs :
      (l : Listener D) (s : Status D)
      → AreSame (apply l.live_buffer l) s
      → IsDrained s
      → RunsOn l [] s
  drained_runs l (stopped m) same empty = tt
  drained_runs l fault same empty = tt
  drained_runs l (running m) same empty = (
    record {
      log = kept l.live_buffer;
      effect =
          subst (λ ps. AreSame (apply ps l) (running m)) (sym (packets-kept l.live_buffer)) same;
      lives = rw (of_live-kept l.live_buffer, empty) refl;
      replays = of_replay-kept l.live_buffer;
    },
    record { plain = subst (All IsPlain) (sym empty) tt; clear = λ c. empty },
  )

  silence_runs : (l : Listener D) → IsTidy l → RunsOn l [] (count_silence l)
  unfolding count_silence
  silence_runs l tidy = elim (Bool-cases (ltb 100 (l.no_replay_count + 1))) [
    | inl over ↦
        rw (over, count_silence)
          (drained_runs l _
            (drain_same l.live_buffer l _ tidy.plain (record { sm = refl; orders = refl }))
            (drain-IsDrained l.live_buffer _))
    | inr early ↦
        rw (early, count_silence)
          (
            no_log l _ [] (record { sm = refl; orders = refl }) (sym (append-nil l.live_buffer))
                refl,
            record { plain = tidy.plain; clear = tidy.clear },
          )
  ]

  timeout_runs : (l : Listener D) → IsTidy l → RunsOn l [] (round timed_out l)
  unfolding round
  timeout_runs l tidy = elim (Bool-cases (not l.caught_up && l.received_snapshot)) [
    | inl silent ↦ rw (silent, round) (silence_runs l tidy)
    | inr other ↦ rw (other, round) (here_RunsOn l tidy)
  ]

  -- While `run_listener` runs, its books and its map of the orders are those of a listener that
  -- processes one list of datagrams as they come: all the replay datagrams that have arrived, in their
  -- order, and the live datagrams, those kept before first, in their order, but for the last ones,
  -- which the buffer holds. Snapshots come from the replay socket alone, and the listener begins with
  -- none in its buffer, and with an empty one if it has caught up.
  pub run-RunsOn :
      (ps : List Poll) (l : Listener D)
      → All IsPlainArrival (arrivals ps)
      → IsTidy l
      → RunsOn l (arrivals ps) (run ps l)
  unfolding run round
  run-RunsOn [] l plain tidy = here_RunsOn l tidy
  run-RunsOn (failed ∷ ps) l plain tidy = tt
  run-RunsOn (timed_out ∷ ps) l plain tidy =
      >>=-RunsOn l [] (arrivals ps) (round timed_out l) (run ps) (timeout_runs l tidy)
        (λ m t. run-RunsOn ps m plain t)
  run-RunsOn (ready es ∷ ps) l plain tidy =
      let (first, rest) = All-split (arrived es) (arrivals ps) plain in
      >>=-RunsOn l (arrived es) (arrivals ps) (receive_all es l) (run ps)
        (receive_all_runs es l first tidy) (λ m t. run-RunsOn ps m rest t)

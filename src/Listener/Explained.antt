-- ===== src/Listener/Explained.antt =====
-- The state of listener.cpp's loop by the datagrams that have arrived.
use hftalgorithms.Base.{◌≡◌, refl, List, [], ◌∷◌, ◌++◌, ap, ◌∙◌, sym, subst}
use mathlib.Core.List.{append_assoc}
use hftalgorithms.Listener.{Packet, Listener, Status, running, stopped, fault, ◌>>=◌, process}
use hftalgorithms.Listener.Same.{IsSame, AreSame, >>=-AreSame, process-AreSame}
use hftalgorithms.Listener.Arrivals.{
  Arrival, of_live, of_replay, IsTidy, of_live-append, of_replay-append, packets, packets-append,
}

module _ {D : Type 0} where
  -- A listener that processes a list of datagrams as they come.
  abbrev pub apply : List Packet → Listener D → Status D
  apply [] l = running l
  apply (p ∷ ps) l = process p l >>= apply ps

  trans-AreSame : (s t u : Status D) → AreSame s t → AreSame t u → AreSame s u
  trans-AreSame (running k) (running l) (running m) h g = record {
    sm = h.sm ∙ g.sm;
    orders = h.orders ∙ g.orders;
  }
  trans-AreSame (running k) (running l) (stopped m) h g = absurd g
  trans-AreSame (running k) (running l) fault h g = absurd g
  trans-AreSame (running k) (stopped l) u h g = absurd h
  trans-AreSame (running k) fault u h g = absurd h
  trans-AreSame (stopped k) t u h g = absurd h
  trans-AreSame fault (running l) u h g = absurd h
  trans-AreSame fault (stopped l) u h g = absurd h
  trans-AreSame fault fault u h g = g

  pub refl-IsSame : (l : Listener D) → IsSame l l
  refl-IsSame l = record { sm = refl; orders = refl }

  pub bind_append :
      (s : Status D) (f g h : Listener D → Status D)
      → ((l : Listener D) → f l ≡ (g l >>= h))
      → (s >>= f) ≡ ((s >>= g) >>= h)
  bind_append (running l) f g h e = e l
  bind_append (stopped l) f g h e = refl
  bind_append fault f g h e = refl

  apply-append :
      (ps qs : List Packet) (l : Listener D) → apply (ps ++ qs) l ≡ (apply ps l >>= apply qs)
  apply-append [] qs l = refl
  apply-append (p ∷ ps) qs l =
      bind_append (process p l) (apply (ps ++ qs)) (apply ps) (apply qs) (apply-append ps qs)

  apply-AreSame :
      (ps : List Packet) (k l : Listener D) → IsSame k l → AreSame (apply ps k) (apply ps l)
  apply-AreSame [] k l s = s
  apply-AreSame (p ∷ ps) k l s =
      >>=-AreSame (process p k) (process p l) (apply ps) (apply ps) (process-AreSame p k l s)
        (apply-AreSame ps)

  -- What has happened between two states of a listener, by the arrivals between them: the datagrams
  -- of the log have been applied, in order; those of it from the live socket, and the buffer, are the
  -- buffer before and the live arrivals; those of it from the replay socket are the replay arrivals.
  pub record Explains (k l : Listener D) (xs : List Arrival) : Type 0 where
    pub log : List Arrival
    pub effect : AreSame (apply (packets log) k) (running l)
    pub lives : of_live log ++ l.live_buffer ≡ k.live_buffer ++ of_live xs
    pub replays : of_replay log ≡ of_replay xs

  trans-Explains :
      (k l m : Listener D) (xs ys : List Arrival)
      → Explains k l xs
      → Explains l m ys
      → Explains k m (xs ++ ys)
  trans-Explains k l m xs ys e f = record {
    log = e.log ++ f.log;
    effect =
        subst (λ ps. AreSame (apply ps k) (running m)) (sym (packets-append e.log f.log))
          (subst (λ s. AreSame s (running m)) (sym (apply-append (packets e.log) (packets f.log) k))
            (trans-AreSame (apply (packets e.log) k >>= apply (packets f.log))
              (apply (packets f.log) l) (running m)
              (>>=-AreSame (apply (packets e.log) k) (running l) (apply (packets f.log))
                (apply (packets f.log)) e.effect (apply-AreSame (packets f.log)))
              f.effect));
    lives =
        ap (λ ps. ps ++ m.live_buffer) (of_live-append e.log f.log)
        ∙ append_assoc (of_live e.log) (of_live f.log) m.live_buffer
        ∙ ap (λ ps. of_live e.log ++ ps) f.lives
        ∙ sym (append_assoc (of_live e.log) l.live_buffer (of_live ys))
        ∙ ap (λ ps. ps ++ of_live ys) e.lives
        ∙ append_assoc k.live_buffer (of_live xs) (of_live ys)
        ∙ ap (λ ps. k.live_buffer ++ ps) (sym (of_live-append xs ys));
    replays =
        of_replay-append e.log f.log
        ∙ ap (λ ps. ps ++ of_replay f.log) e.replays
        ∙ ap (λ ps. of_replay xs ++ ps) f.replays
        ∙ sym (of_replay-append xs ys);
  }

  -- The step has run on to a tidy listener whose state the arrivals explain, or it has not run on.
  abbrev pub RunsOn : Listener D → List Arrival → Status D → Type 0
  RunsOn k xs (running l) = Explains k l xs × IsTidy l
  RunsOn k xs (stopped l) = Unit
  RunsOn k xs fault = Unit

  pub after :
      (k l : Listener D) (xs ys : List Arrival) (s : Status D)
      → Explains k l xs
      → RunsOn l ys s
      → RunsOn k (xs ++ ys) s
  after k l xs ys (running m) e h = (trans-Explains k l m xs ys e h.0, h.1)
  after k l xs ys (stopped m) e h = tt
  after k l xs ys fault e h = tt

  pub >>=-RunsOn :
      (k : Listener D) (xs ys : List Arrival) (s : Status D) (f : Listener D → Status D)
      → RunsOn k xs s
      → ((l : Listener D) → IsTidy l → RunsOn l ys (f l))
      → RunsOn k (xs ++ ys) (s >>= f)
  >>=-RunsOn k xs ys (stopped l) f h step = tt
  >>=-RunsOn k xs ys fault f h step = tt
  >>=-RunsOn k xs ys (running l) f h step = after k l xs ys (f l) h.0 (step l h.1)

-- ===== src/Client/Producer/Answered.antt =====
-- The waiters of pkg/client/producer.go, over all runs of a producer.
use mini_kafka.Prelude.{
  ℕ, ◌+◌, ◌≡◌, refl, sym, ap, ◌∙◌, true, false, Bool-cases, inl, inr, Option, List, [], ◌∷◌, All,
  arith,
}
use mini_kafka.Prelude.Int.{ℤ, pos, leb_ℤ}
use mini_kafka.Protocol.Stream.{Bytes}
use mini_kafka.Storage.Record.{Record}
use mini_kafka.Client.Producer.{
  ProducerConfig, Producer, PendingBatch, Added, new_producer, add_record, send_batched,
  with_defaults, take_off, linger_fire, flush_all_pending, begin_close, finalize,
}
use mini_kafka.Client.Producer.Steps.{
  Sending, Action, send, linger, flush, close, finish, pick, flushed, act, run, drain,
}
use mini_kafka.Client.Producer.Held.{
  tally, held, answered, tally-append, held-append, answered-append, IsFilled, answered-flushed,
  IsFilled-append, IsFilled-add_record, IsFilled-take_off, IsFilled-pick, held-add_record,
  held-take_off, held-pick,
}

-- What is issued is waiting, in flight, or answered.
abbrev Balanced : Sending → Type 0
Balanced s =
    (x : ℕ)
    → tally x s.issued
      ≡ held x s.producer.pending + held x s.producer.in_flight + answered x s.delivered

-- A closed producer has nothing pending.
abbrev Quiet : Producer → Type 0
Quiet p = p.closed ≡ true → p.pending ≡ []

pub record IsSound (s : Sending) : Type 0 where
  pub balanced : Balanced s
  pub quiet : Quiet s.producer
  pub lingers : leb_ℤ s.producer.config.linger_ms (pos 0) ≡ false
  pub ended : s.producer.finalized ≡ true → s.producer.closed ≡ true
  pub pending : All IsFilled s.producer.pending
  pub in_flight : All IsFilled s.producer.in_flight

send-IsSound :
    (topic : Bytes) (partition : ℤ) (rec : Record) (waiter : ℕ) (s : Sending)
    → IsSound s
    → IsSound (act (send topic partition rec waiter) s)
unfolding act send_batched
send-IsSound topic partition rec waiter s h = elim (Bool-cases s.producer.closed) [
  | inl shut ↦ simp shut (record {
    balanced = h.balanced;
    quiet = λ e. h.quiet shut;
    lingers = h.lingers;
    ended = λ e. shut;
    pending = h.pending;
    in_flight = h.in_flight;
  })
  | inr opened ↦ simp opened (record {
    balanced = λ x. omega (
      arith,
      h.balanced x,
      tally-append x s.issued (waiter ∷ []),
      held-append x s.producer.in_flight added.full,
      held-add_record x s.producer.config.batch_size s.producer.next_batch topic partition rec
          waiter s.producer.pending,
    );
    quiet = λ e. cc;
    lingers = h.lingers;
    ended = λ e. sym opened ∙ h.ended e;
    pending = filled_added.0;
    in_flight = IsFilled-append s.producer.in_flight added.full h.in_flight filled_added.1;
  })
]
  where
    added : Added
    added =
        add_record s.producer.config.batch_size s.producer.next_batch topic partition rec waiter
          s.producer.pending

    filled_added : All IsFilled added.kept × All IsFilled added.full
    filled_added =
        IsFilled-add_record s.producer.config.batch_size s.producer.next_batch topic partition rec
          waiter s.producer.pending h.pending

take_off-nil : (id : ℕ) (pbs : List PendingBatch) → pbs ≡ [] → (take_off id pbs).0 ≡ []
unfolding take_off
take_off-nil id [] e = refl
take_off-nil id (pb ∷ pbs) e = cc

linger-IsSound : (id : ℕ) (s : Sending) → IsSound s → IsSound (act (linger id) s)
unfolding act linger_fire
linger-IsSound id s h = record {
  balanced = λ x. omega (
    arith,
    h.balanced x,
    held-take_off x id s.producer.pending,
    held-append x s.producer.in_flight (take_off id s.producer.pending).1,
  );
  quiet = λ e. take_off-nil id s.producer.pending (h.quiet e);
  lingers = h.lingers;
  ended = h.ended;
  pending = (IsFilled-take_off id s.producer.pending h.pending).0;
  in_flight =
      IsFilled-append s.producer.in_flight (take_off id s.producer.pending).1 h.in_flight
        (IsFilled-take_off id s.producer.pending h.pending).1;
}

flush-IsSound :
    (i : ℕ) (offsets : Option (List ℤ)) (s : Sending)
    → IsSound s
    → IsSound (act (flush i offsets) s)
unfolding act
flush-IsSound i offsets s h = record {
  balanced = λ x. omega (
    arith,
    h.balanced x,
    held-pick x i s.producer.in_flight,
    answered-append x s.delivered (flushed offsets (pick i s.producer.in_flight).1),
    answered-flushed x (pick i s.producer.in_flight).1 offsets
        (IsFilled-pick i s.producer.in_flight h.in_flight).1,
  );
  quiet = h.quiet;
  lingers = h.lingers;
  ended = h.ended;
  pending = h.pending;
  in_flight = (IsFilled-pick i s.producer.in_flight h.in_flight).0;
}

close-IsSound : (s : Sending) → IsSound s → IsSound (act close s)
unfolding act begin_close flush_all_pending
close-IsSound s h = elim (Bool-cases s.producer.finalized) [
  | inl ended ↦ simp ended h
  | inr going ↦ elim (Bool-cases s.producer.closed) [
    | inl shut ↦ simp (going, shut) h
    | inr opened ↦
        simp (going, opened, h.lingers)
          (record {
            balanced = λ x.
                omega (arith, h.balanced x, held-append x s.producer.in_flight s.producer.pending);
            quiet = λ e. refl;
            lingers = h.lingers;
            ended = λ e. refl;
            pending = tt;
            in_flight =
                IsFilled-append s.producer.in_flight s.producer.pending h.in_flight h.pending;
          })
  ]
]

finish-IsSound : (s : Sending) → IsSound s → IsSound (act finish s)
unfolding act finalize
finish-IsSound s h = elim (Bool-cases s.producer.closed) [
  | inl shut ↦ simp shut (record {
    balanced = h.balanced;
    quiet = λ e. h.quiet shut;
    lingers = h.lingers;
    ended = λ e. refl;
    pending = h.pending;
    in_flight = h.in_flight;
  })
  | inr opened ↦ simp opened h
]

act-IsSound : (a : Action) (s : Sending) → IsSound s → IsSound (act a s)
act-IsSound (send topic partition rec waiter) s h = send-IsSound topic partition rec waiter s h
act-IsSound (linger id) s h = linger-IsSound id s h
act-IsSound (flush i offsets) s h = flush-IsSound i offsets s h
act-IsSound close s h = close-IsSound s h
act-IsSound finish s h = finish-IsSound s h

pub run-IsSound : (as' : List Action) (s : Sending) → IsSound s → IsSound (run as' s)
unfolding run
run-IsSound [] s h = h
run-IsSound (a ∷ as') s h = run-IsSound as' (act a s) (act-IsSound a s h)

-- The producer at its start, and what it is after a run, a Close and the flushes of Close.
abbrev pub started : ProducerConfig → Sending
started c = record { producer = new_producer c; issued = []; delivered = [] }

abbrev pub finished : ProducerConfig → List Action → Option (List ℤ) → Sending
finished c as' offsets = drain offsets (act close (run as' (started c)))

started-IsSound : (c : ProducerConfig) → leb_ℤ c.linger_ms (pos 0) ≡ false → IsSound (started c)
unfolding new_producer with_defaults
started-IsSound c h = record {
  balanced = λ x. refl;
  quiet = λ e. refl;
  lingers = h;
  ended = λ e. cc;
  pending = tt;
  in_flight = tt;
}

begin_close-closed :
    (p : Producer) → (p.finalized ≡ true → p.closed ≡ true) → (begin_close p).closed ≡ true
unfolding begin_close flush_all_pending
begin_close-closed p h = elim (Bool-cases p.finalized) [
  | inl ended ↦ simp ended (h ended)
  | inr going ↦ ground arith
]

drained :
    (offsets : Option (List ℤ)) (s : Sending) (x : ℕ)
    → IsSound s
    → s.producer.pending ≡ []
    → answered x (drain offsets s).delivered ≡ tally x (drain offsets s).issued
unfolding drain
drained offsets s x h e = omega (
  arith,
  h.balanced x,
  ap (held x) e,
  answered-append x s.delivered (flushed offsets s.producer.in_flight),
  answered-flushed x s.producer.in_flight offsets h.in_flight,
)

-- For a producer that lingers: after any run of sends, timers, flushes and Closes, up to their
-- flushes and from there on to their end, in any order, a further Close and the flushes of what is
-- then in flight, every waiter has been sent exactly as many results as it was given records to
-- wait for, whether a batch is answered with offsets, with too few of them, or not at all.
pub finished-answered :
    (c : ProducerConfig) (as' : List Action) (offsets : Option (List ℤ)) (x : ℕ)
    → leb_ℤ c.linger_ms (pos 0) ≡ false
    → answered x (finished c as' offsets).delivered ≡ tally x (finished c as' offsets).issued
finished-answered c as' offsets x lingers =
    drained offsets (act close before) x (act-IsSound close before sound) (
      (act-IsSound close before sound).quiet
        (unfold act in begin_close-closed before.producer sound.ended))
  where
    before : Sending
    before = run as' (started c)

    sound : IsSound before
    sound = run-IsSound as' (started c) (started-IsSound c lingers)

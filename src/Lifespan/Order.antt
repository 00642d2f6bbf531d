-- ===== src/Lifespan/Order.antt =====
-- What becomes of the messages between the broker and the ingestor.
use mathlib.Core.List.{append_assoc}
use mathlib.Core.Path.{subst}
use mqtt_projeto_vena.Prelude.{
  ◌≡◌, ◌∙◌, ◌≤◌, refl, sym, ap, List, [], ◌∷◌, ◌++◌, false, length, length-append, ltb, ltb→lt,
  Bool-cases, inl, inr, ◌⊎◌, arith,
}
use mqtt_projeto_vena.Telemetry.Ingest.Loop.{Message}
use mqtt_projeto_vena.Lifespan.{
  Phase, worker_started, serving, worker_stopped, finished, Backend, new_backend, maxsize,
  put_nowait, Step, start_worker, start_ingestor, receive, call_scheduled, get_message, stop_worker,
  stop_ingestor, Reached, begin, after,
}

-- The third list is made of the first two, each in its order.
pub data Shuffle {ℓ} {A : Type ℓ} : List A → List A → List A → Type ℓ where
  empty : Shuffle [] [] []
  left : {x : A} {a b c : List A} → Shuffle a b c → Shuffle (x ∷ a) b (x ∷ c)
  right : {x : A} {a b c : List A} → Shuffle a b c → Shuffle a (x ∷ b) (x ∷ c)

module _ {ℓ} {A : Type ℓ} where
  left_end : {a b c : List A} (x : A) → Shuffle a b c → Shuffle (a ++ x ∷ []) b (c ++ x ∷ [])
  left_end x empty = left empty
  left_end x (left s) = left (left_end x s)
  left_end x (right s) = right (left_end x s)

  right_end : {a b c : List A} (x : A) → Shuffle a b c → Shuffle a (b ++ x ∷ []) (c ++ x ∷ [])
  right_end x empty = right empty
  right_end x (left s) = left (right_end x s)
  right_end x (right s) = right (right_end x s)

  -- where the first list is empty, the second is the third
  pub none_left_out : {b c : List A} → Shuffle [] b c → b ≡ c
  none_left_out empty = refl
  none_left_out (right {x} s) = ap (λ l. x ∷ l) (none_left_out s)

-- What holds of every state.
pub record Ordered (b : Backend) : Type 0 where
  pub called : List Message
  pub bounded : length b.queue ≤ maxsize
  pub waiting : b.arrived ≡ called ++ b.scheduled
  pub split : Shuffle b.dropped (b.taken ++ b.queue) called
  pub full : (b.dropped ≡ []) ⊎ (maxsize ≤ length (b.taken ++ b.queue))

new-Ordered : Ordered new_backend
new-Ordered = record {
  called = [];
  bounded = omega arith;
  waiting = refl;
  split = empty;
  full = inl refl;
}

put_nowait-Ordered :
    (b : Backend) (m : Message) (later : List Message)
    → b.scheduled ≡ m ∷ later
    → Ordered b
    → Ordered (put_nowait m later b)
unfolding put_nowait
put_nowait-Ordered b m later next o = elim (Bool-cases (ltb (length b.queue) maxsize)) [
  | inl room ↦
      rw (put_nowait, room)
        (record {
          called = o.called ++ m ∷ [];
          bounded =
              omega (arith, ltb→lt (length b.queue) maxsize room, length-append b.queue (m ∷ []));
          waiting = waits;
          split =
              subst (λ l. Shuffle b.dropped l (o.called ++ m ∷ []))
                (append_assoc b.taken b.queue (m ∷ [])) (right_end m o.split);
          full = elim o.full [
            | inl none_dropped ↦ inl none_dropped
            | inr many ↦ inr (
                omega (
                  arith,
                  many,
                  length-append b.taken b.queue,
                  length-append b.taken (b.queue ++ m ∷ []),
                  length-append b.queue (m ∷ []),
                ))
          ];
        })
  | inr no_room ↦
      rw (put_nowait, no_room)
        (record {
          called = o.called ++ m ∷ [];
          bounded = o.bounded;
          waiting = waits;
          split = left_end m o.split;
          full = inr (omega (arith, is_full no_room, length-append b.taken b.queue));
        })
]
  where
    waits : b.arrived ≡ (o.called ++ m ∷ []) ++ later
    waits = o.waiting ∙ ap (λ l. o.called ++ l) next ∙ sym (append_assoc o.called (m ∷ []) later)

    is_full : ltb (length b.queue) maxsize ≡ false → maxsize ≤ length b.queue
    is_full h = ground arith

phase-Ordered : {b : Backend} (p : Phase) → Ordered b → Ordered (record b { phase = p })
phase-Ordered p o = record {
  called = o.called;
  bounded = o.bounded;
  waiting = o.waiting;
  split = o.split;
  full = o.full;
}

kept_by_each : {b c : Backend} → Step b c → Ordered b → Ordered c
kept_by_each (start_worker p) o = phase-Ordered worker_started o
kept_by_each (start_ingestor p) o = phase-Ordered serving o
kept_by_each {b} (receive m p) o = record {
  called = o.called;
  bounded = o.bounded;
  waiting = ap (λ l. l ++ m ∷ []) o.waiting ∙ append_assoc o.called b.scheduled (m ∷ []);
  split = o.split;
  full = o.full;
}
kept_by_each {b} (call_scheduled m later next) o = put_nowait-Ordered b m later next o
kept_by_each {b} (get_message m later p next) o = record {
  called = o.called;
  bounded = omega (arith, o.bounded, ap length next);
  waiting = o.waiting;
  split = subst (λ l. Shuffle b.dropped l o.called) same o.split;
  full = subst (λ l. (b.dropped ≡ []) ⊎ (maxsize ≤ length l)) same o.full;
}
  where
    same : b.taken ++ b.queue ≡ (b.taken ++ m ∷ []) ++ later
    same = ap (λ l. b.taken ++ l) next ∙ sym (append_assoc b.taken (m ∷ []) later)
kept_by_each (stop_worker p) o = phase-Ordered worker_stopped o
kept_by_each (stop_ingestor p q) o = phase-Ordered finished o

in_order_anywhere : {b : Backend} → Reached b → Ordered b
in_order_anywhere begin = new-Ordered
in_order_anywhere (after r s) = kept_by_each s (in_order_anywhere r)

-- In every state that a lifespan reaches, however the broker, the event loop and the ingestor
-- interleave, the queue holds 10,000 messages at most; the messages that arrived are, in their order,
-- those that the event loop was called for and then those still scheduled; and the former are those
-- dropped and those taken or queued, each in their order. Nothing is dropped before 10,000
-- messages were accepted, and until then the ingestor's messages, those queued and those scheduled are
-- exactly what arrived.
pub messages_in_order :
    (b : Backend)
    → Reached b
    → Ordered b
      × ((maxsize ≤ length (b.taken ++ b.queue))
          ⊎ (b.arrived ≡ (b.taken ++ b.queue) ++ b.scheduled))
messages_in_order b r =
    let o : Ordered b = in_order_anywhere r in
    (
      o,
      elim o.full [
        | inr many ↦ inl many
        | inl none_dropped ↦ inr (
            o.waiting
            ∙ ap (λ l. l ++ b.scheduled)
                (sym (
                  none_left_out
                    (subst (λ l. Shuffle l (b.taken ++ b.queue) o.called) none_dropped o.split))))
      ],
    )

-- ===== src/Tests/Interleaving.antt =====
-- A lifespan with one message.
use mqtt_projeto_vena.Prelude.{◌≡◌, ◌≤◌, ◌⊎◌, refl, [], ◌∷◌, ◌++◌, length}
use mqtt_projeto_vena.Telemetry.Ingest.Loop.{Message}
use mqtt_projeto_vena.Lifespan.{
  Backend, serving, maxsize, put_nowait, start_worker, start_ingestor, receive, call_scheduled,
  Reached, begin, after,
}
use mqtt_projeto_vena.Lifespan.Order.{Ordered, messages_in_order}

abbrev message : Message
message = ("vena/vena-01/telemetry", 2 ∷ [])

abbrev one_queued : Backend
one_queued = record {
  phase = serving;
  arrived = message ∷ [];
  scheduled = [];
  queue = message ∷ [];
  taken = [];
  dropped = [];
}

one_message : Reached one_queued
unfolding put_nowait
one_message =
    after
      (after (after (after begin (start_worker refl)) (start_ingestor refl)) (receive message refl))
      (call_scheduled message [] refl)

messages_in_order_example :
    Ordered one_queued
    × ((maxsize ≤ length (one_queued.taken ++ one_queued.queue))
        ⊎ (one_queued.arrived ≡ (one_queued.taken ++ one_queued.queue) ++ one_queued.scheduled))
messages_in_order_example = messages_in_order one_queued one_message

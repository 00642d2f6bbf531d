-- ===== src/Lifespan.antt =====
-- backend/app/main.py: the lifespan of the application, in which the worker fills a queue and the
-- ingestor drains it. A message is scheduled by Paho's thread (call_soon_threadsafe), enqueued by the
-- event loop (put_nowait), and taken by the ingestor; the steps of the three interleave in any way.
pub mod Order
use mqtt_projeto_vena.Prelude.{
  ℕ, ◌≡◌, ◌<◌, ◌≤◌, String, List, [], ◌∷◌, ◌++◌, Bool, true, false, length, ltb, if◌then◌else◌,
}
use mqtt_projeto_vena.Telemetry.Ingest.Loop.{Message}

-- asyncio.Queue(maxsize=10_000)
abbrev pub maxsize : ℕ
maxsize = 10000

-- Where the lifespan is: before `worker.start()`, between the starts, at `yield`, between the stops, and
-- at its end.
pub data Phase : Type 0 where
  starting : Phase
  worker_started : Phase
  serving : Phase
  worker_stopped : Phase
  finished : Phase

-- The queue and what is around it; `arrived`, `taken` and `dropped` are the histories of what came from
-- the broker, of what the ingestor has taken, and of what met a full queue.
pub record Backend : Type 0 where
  pub phase : Phase
  pub arrived : List Message
  pub scheduled : List Message
  pub queue : List Message
  pub taken : List Message
  pub dropped : List Message

abbrev pub new_backend : Backend
new_backend = record {
  phase = starting;
  arrived = [];
  scheduled = [];
  queue = [];
  taken = [];
  dropped = [];
}

-- Paho's thread runs between `loop_start` and `loop_stop`, and the ingestor's task from its start on, to
-- its end in `ingestor.stop()`.
abbrev pub is_receiving : Phase → Bool
is_receiving worker_started = true
is_receiving serving = true
is_receiving _ = false

abbrev pub is_draining : Phase → Bool
is_draining serving = true
is_draining worker_stopped = true
is_draining _ = false

-- `put_nowait`, on the event loop: QueueFull loses the message
unfoldable pub put_nowait : Message → List Message → Backend → Backend
put_nowait m later b =
    if ltb (length b.queue) maxsize
    then record b { scheduled = later; queue = b.queue ++ m ∷ [] }
    else record b { scheduled = later; dropped = b.dropped ++ m ∷ [] }

-- one step
pub data Step (b : Backend) : Backend → Type 0 where
  start_worker : b.phase ≡ starting → Step b (record b { phase = worker_started })
  start_ingestor : b.phase ≡ worker_started → Step b (record b { phase = serving })
  receive :
      (m : Message)
      → is_receiving b.phase ≡ true
      → Step b (record b { arrived = b.arrived ++ m ∷ []; scheduled = b.scheduled ++ m ∷ [] })
  call_scheduled :
      (m : Message) (later : List Message) → b.scheduled ≡ m ∷ later → Step b (put_nowait m later b)
  get_message :
      (m : Message) (later : List Message)
      → is_draining b.phase ≡ true
      → b.queue ≡ m ∷ later
      → Step b (record b { queue = later; taken = b.taken ++ m ∷ [] })
  stop_worker : b.phase ≡ serving → Step b (record b { phase = worker_stopped })
  stop_ingestor : b.phase ≡ worker_stopped → b.queue ≡ [] → Step b (record b { phase = finished })

-- the states of a lifespan
pub data Reached : Backend → Type 0 where
  begin : Reached new_backend
  after : {b c : Backend} → Reached b → Step b c → Reached c

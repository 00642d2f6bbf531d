-- ===== src/Lib.antt =====
-- Vena: a platform for monitoring temperature and humidity. ESP32 devices publish readings over MQTT,
-- a FastAPI backend (backend/app) stores them in PostgreSQL and answers a phone app, and the broker
-- (mosquitto-go-auth) asks the backend who may connect and which topics a client may use.
--
-- The parts, and how they interact:
--   Config, Db         backend/app/config.py and db/models.py: the settings, and the rows of the tables
--   Sql                the statements that the backend issues, as an interface: a table is known by how
--                      many of its rows pass a test; Sql/Memory is a database in memory that meets the laws
--   Http, Json         how a handler ends (a value, an HTTPException, an uncaught exception), and JSON
--   Auth               backend/app/auth: tokens (Jwt; Lifetime for when they expire), Google's check
--                      (Google), login_with_google and refresh_access_token (Service), get_current_user (Deps)
--   BrokerAuth         backend/app/broker_auth: mqtt_auth, mqtt_acl and mqtt_superuser, on those tokens
--   Devices            backend/app/devices: pairing codes (Pairing), claims and names (Service), the
--                      endpoints, each of which asks for the current user first (Routes)
--   Mqtt               backend/app/mqtt: parse_topic (Topics), get_mqtt_credentials and provision_device
--                      (Credentials), the client that fills the queue (Worker)
--   Telemetry/Ingest   backend/app/telemetry/ingest.py: _parse (Rows), _flush and _handle_meta (Flush),
--                      _run and stop (Loop)
--   Telemetry          aggregation.py (Aggregation), schemas.py (Samples), service.py and routes.py (History)
--   Telemetry/Ingest/Archive, Simulation
--                      the map from device and time to reading that telemetry_raw implements
--   Migrations         backend/alembic: what each revision issues (Revisions), the classes' columns (Models),
--                      and PostgreSQL as an interface that executes statements
--   Server             the requests, batches and seedings that write to the database, one session after
--                      the other, in any order; what each leaves of the tables, unique keys
--                      (Uniqueness, Invariant), foreign keys (Links, ClaimLinks, Integrity) and the list of
--                      a user's devices (Listed)
--   Lifespan           backend/app/main.py: the queue between the worker and the ingestor, as a step relation
--   Scripts            scripts/generate_qr.py, backend/scripts/seed_device.py and provision_nvs.py
--   Prototype          application/: the console client that came before the backend
--   Prelude, Tests     shared lists, texts and Boolean tests; the theorems at concrete inputs
--
-- State is passed explicitly: a handler takes the database and what it draws (the clock, fresh ids)
-- and returns the database that its commit leaves. The loop of the ingestion is a function of its
-- rounds: what the queue gave and what the clocks showed. Every recursion is on the structure of a list,
-- a text or a number; the one fuel is that of the chain of migrations, which nine steps walk to its first
-- revision. Times are microseconds since 1 January of the year 1, the first that a datetime holds, as
-- natural numbers; a difference that Python would make negative is written out, but for `now - range`,
-- which no clock past the year 2 makes negative. The dates of a JWT are seconds since 1970, for a clock
-- past it. No width of an integer matters but that of a JWT's `exp`, whose
-- bound for devices (2038) is a constant of the source.
--
-- Parameters, with what is relied on: the package jose (a token signed with a key decodes with it until
-- its exp), bcrypt (a hash checks its own password), google-auth, SHA-256, uuid, the Paho client,
-- Python's json, int and datetime conversions, and the database driver. The laws of the Sql interface
-- are those of the statements in PostgreSQL within one session; two transactions that run at the same
-- time are not modelled, nor are the constraints that the server enforces. A migration's statements are
-- kept as a list, and what the server makes of them is known by the laws of Postgres alone.
--
-- Not modelled: logging, the smoke test, the health check and the CORS settings, the firmware (C++) and the
-- mobile app (Dart).
pub mod Prelude
pub mod Sql
pub mod Config
pub mod Http
pub mod Db
pub mod Json
pub mod Auth
pub mod BrokerAuth
pub mod Mqtt
pub mod Devices
pub mod Telemetry
pub mod Scripts
pub mod Lifespan
pub mod Migrations
pub mod Prototype
pub mod Server
pub mod Tests

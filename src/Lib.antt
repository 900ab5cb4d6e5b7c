-- ===== src/Lib.antt =====
-- A model of the server of the Mikrotik CPE cloud: routers enroll themselves over HTTP, get an
-- address of the WireGuard overlay and a telemetry token, and report with that token; a technician
-- fetches an installer with a short-lived fetch token.
--
-- The parts, and the code that they model:
-- - Models, Config: the rows of app/models that the code reads and writes, and the settings of
--   app/config.py with their defaults and the validator of the overlay, whose parser is
--   Ipv4.Cidr. Db holds the tables and the next primary keys.
-- - RateLimit: app/services/rate_limit.py. The bucket's amount is a number of 1/6000000 tokens and
--   the clock a number of microseconds, so that the rate 10/60 a second is one unit a microsecond;
--   the code computes in floats, whose rounding is not modelled.
-- - Tokens: app/services/tokens.py. `sha256` is a parameter (a text to a text), the random bytes are
--   an argument, and secrets.token_urlsafe is Base64.token_urlsafe.
-- - Wireguard, with Wireguard.File for the directory of wg0.conf and its system calls, and Ipv4 for
--   the parts of `ipaddress` that are called: app/services/wireguard.py. The overlay is IPv4.
--   Wireguard.Reader reads the managed part of the file back; the code has no such reader.
-- - AutoEnroll: app/routers/auto_enroll.py, with AutoEnroll.Request for the payload and its validator,
--   AutoEnroll.Secret, AutoEnroll.Identity (the naming pattern and `int`), AutoEnroll.Rows (the rows
--   that are written and the UNIQUE constraints) and AutoEnroll.Flush (up to the commit).
-- - Influx: app/services/influx.py, with Influx.Uptime, Influx.Value (the dict of a payload),
--   Influx.Point (the builders) and Influx.Write. A point is the list of what its builder is told.
-- - Telemetry: app/routers/telemetry.py, the header and the handler. Telemetry.Payload has the models
--   of a heartbeat, Telemetry.Validate their validation, Telemetry.Dump model_dump, and Telemetry.Sent
--   an account of the points of a heartbeat that does not go through dicts. Factory: app/routers/factory.py.
-- - Cli: app/cli.py, the commands without the argument parser.
-- - Schema: the tables. Schema.Metadata is app/models as tables with their columns and constraints,
--   Schema.Initial alembic/versions/0001_initial_schema.py as the operations of its upgrade and its
--   downgrade, Schema.Ddl says when the database carries an operation out, and Schema.Rows what it
--   asks of a row.
-- - Server: what the three handlers share, the state (tables, buckets, directory of wg0.conf, whether
--   there is a client of the time series, and the batches delivered to it) and the responses.
-- - Telemetry.Deliver: the heartbeat endpoint from the body of the request to the delivered batch.
-- - Fleet: the tables under all operations in any order. Fleet.Race: first enrollments whose reads and
--   flushes interleave.
-- - App: app/main.py with routers/health.py and routers/enrollment.py, the handlers of all routes and
--   the life of the application from its start to the closing of the client. App.Authority says what a
--   request has to show.
-- - Base, Base64: helpers, and the parts of Python's standard library that the code calls.
--
-- A handler is a function from its inputs and a state to a response and a state. Its inputs include
-- what it reads from outside: the clocks, in the order of the readings, the random bytes, the outcome
-- of the system calls and of the helper. A state holds what is committed: an exception that is not
-- caught is a response 500 with the tables as they were. The templates, `str(exc)`, the checks of column
-- types by the database and the telemetry writer are parameters, over which the theorems quantify; in
-- Telemetry.Deliver and App the writer is the one of Influx.Write.
-- A number is unbounded; loops are structural recursion, and the decimal digits of a number take
-- fuel that is above the number, and so above the number of its digits (Base.Decimal.value-str).
--
-- Simplifications: texts are lists of code points, and `int` and the digits of an address are read
-- in ASCII only; a MAC address is compared as its text; a primary key that is rolled back is used
-- again, except in Fleet.Race; the columns that nothing writes (notes, UISP keys, updated_at, the result of an audit entry)
-- are left out; requests are handled one after another, except in Fleet.Race.
--
-- Not modelled: the argument parser of app/cli.py, app/db.py (its session is the commit of each
-- handler), what the framework answers on routes that the application does not have, alembic/env.py
-- (the configuration of alembic), the templates' text, and logging.
mod Base
pub mod App
pub mod Base64
pub mod Models
pub mod Config
pub mod RateLimit
pub mod Tokens
pub mod Ipv4
pub mod Wireguard
pub mod Server
pub mod Schema
pub mod Factory
pub mod Telemetry
pub mod AutoEnroll
pub mod Fleet
pub mod Cli
pub mod Influx
mod Tests

-- ===== src/Lib.antt =====
-- The smart parking platform, a Python service (src/ of the repository) on PostgreSQL, Redis and
-- ChirpStack: what sensors report is debounced into the state of a space, the state and the
-- reservations decide what the display of the space shows, and a durable queue sends that to the
-- display. Tenants share the service; users and API keys are authenticated for each request.
--
-- The files and the code that they are about:
--
--   Prelude          library names passed on, tests on native numbers and texts, lists, dictionaries
--   Datetime         datetimes with and without a time zone, whose comparison raises
--   Redis            the Redis commands the service uses, as a record of operations with their
--                    laws, and a store in memory that satisfies it
--   Hex              bytes.fromhex, in the order of Python's own parser
--   Display          src/display_state_machine.py (DisplayStateMachine) and the SQL function
--                    compute_display_state of migrations/006_display_state_machine.sql
--     Types, Store   the dataclasses and rows; get_debounce_state and save_debounce_state
--     Policy         get_display_policy and invalidate_policy_cache
--     Compute        compute_display_state, compute_display_command, force_recompute_all_spaces
--     Machine        process_sensor_reading
--   Downlink         src/downlink_queue.py
--     Types, Queue   DownlinkCommand and DownlinkQueue over the interface of Redis
--     Bucket         DownlinkRateLimiter
--     Worker         DownlinkWorker.run and _process_command, with ChirpStack as a parameter
--   Tokens           src/refresh_token_service.py over the table of migrations/007_audit_log.sql,
--                    which migrations/010_refresh_tokens.sql finds in place (Service), and what
--                    its calls come to on that table (Barren)
--   Access           src/auth.py (Keys), src/tenant_auth.py (Tenant, Roles), src/api_scopes.py (Scopes)
--   Reservations     create_reservation and cancel_reservation of src/routers/reservations.py, the
--                    constraints of migrations 001, 004 and 005, and the UPDATE of
--                    _reservation_end_task in src/background_tasks.py
--   Limits           RateLimiter.check_limit of src/rate_limiter.py (Window), check_rate_limit of
--                    src/rate_limit.py and the key that its middleware takes (Tokens)
--   Spool            src/webhook_spool.py (WebhookSpool), over directories as lists of named files
--   Spaces           src/state_manager.py (StateManager)
--     Lock, Protocol acquire_lock: as one call sees the key, and its commands one at a time
--     Display        update_display, over the queue of Downlink or a direct call of ChirpStack
--     Manager        update_space_state, is_valid_transition, invalidate_cache
--     Refinement     the automaton with guards that a space follows; Automaton has the theorem,
--                    History what the log says
--     Faults         update_space_state where the database or Redis raises under the lock
--     Availability   check_availability over the table of Reservations
--   Webhooks         src/webhook_validation.py
--   Devices          normalize_deveui of src/utils.py (Eui, Normal) and src/device_handlers.py
--                    (Handlers, Registry)
--   Uplink           process_uplink of src/main.py (Endpoint, Confirm), which composes Webhooks,
--                    Devices and Spaces, with the queries of src/database.py and
--                    src/orphan_devices.py that it makes (Tables)
--   Tasks            the start and end tasks and the expiry loop of src/background_tasks.py, with
--                    expire_old_reservations of migration 005, over Reservations and Spaces
--   Gateways         src/gateway_monitor.py (GatewayMonitor)
--   Estate           src/routers/sites.py (Sites), src/routers/spaces_tenanted.py (Spaces, Listing) and
--                    the CacheManager of src/cache.py (Cache), over the tables and constraints of
--                    the migrations 001, 002, 003 and 008 (Rows); the trigger of 008 that refuses
--                    every write of a space is a field of the tables (Blocked)
--     Calls, Steps   the requests as steps on the tables, and the writes that they come down to
--   Policies         src/routers/display_policies.py (Endpoints, Changes), over the tables of
--                    migrations/006_display_state_machine.sql and the model of Display
--   Accounts         src/api_tenants.py: login, register and refresh_token (Sessions), the profile
--                    (Profile) and the API keys (Keys), over Access and Tokens; Refresh and Owner
--                    have what becomes of the sessions
--
-- A component's state is a record that its operations take and return: a table is a list of rows or
-- a function from keys to optional rows, Redis a store behind its laws. A Python exception that
-- leaves a method is `none` or a constructor of the result. A datetime is a number, but in Tokens and
-- in the debouncing of Display, where the code sets one without a time zone against one with it. What a call reads from outside is an
-- argument: the clock, a generated token or identifier, the answer of the JWT library and of bcrypt,
-- the digest, the answer of ChirpStack. Times are numbers of microseconds, in the token buckets of
-- milliseconds. The tokens of a bucket are counted in units of 1/60000, so that a rate of `limit`
-- per minute adds `limit` units per millisecond and no rounding occurs; the floating point of the
-- source is not modelled.
--
-- The functions are total by structural recursion, and no fuel is used. The worker's endless loop is
-- a run over the list of the clock readings of its rounds. A creation of a reservation takes two
-- databases, the one that its first queries see and the one that its INSERT meets, so that any
-- requests may run in between.
--
-- Of the lock of a space there are two views. `update_space_state` takes the key as its two tries see
-- it; Spaces.Protocol has the commands of several clients as a list of events with the clock. A file of
-- the spool appears and moves at once, as the renaming does.
--
-- Not modelled: failures of the database, of Redis and of the disk, but for those in Spaces.Faults; the
-- expiry of the queue's keys (but for the hash of a command in Downlink.Delivery) and of the other keys
-- but the lock; the foreign key of the debounce rows; the trigger of migration 008 in the models other
-- than Estate; the metrics and logging; the JSON forms of requests, answers and
-- columns; the encoding of downlinks in src/device_handlers.py, the list and the deletion of
-- src/orphan_devices.py, the remaining functions of src/utils.py; the middleware of
-- src/rate_limiter.py; the limits, the update of the tenant, the list of users and the forwarding
-- endpoints of src/api_tenants.py; the schedule and the other loops of src/background_tasks.py; the
-- remaining routers, which are SQL text around a connection pool; the frontend. Of the database's row
-- level security nothing is modelled, since the role that connects is not in the repository. A request
-- to the routers of sites, spaces and policies and to src/api_tenants.py is one step on the tables. The
-- texts that Python changes to lower or upper case go through a parameter, since the tables of Unicode
-- are not modelled.
pub mod Prelude
pub mod Datetime
pub mod Redis
pub mod Display
pub mod Hex
pub mod Downlink
pub mod Tokens
pub mod Access
pub mod Reservations
pub mod Limits
pub mod Spool
pub mod Spaces
pub mod Webhooks
pub mod Devices
pub mod Uplink
pub mod Tasks
pub mod Gateways
pub mod Estate
pub mod Policies
pub mod Accounts

-- ===== src/Lib.antt =====
-- Smart Logistics: a verification library of the services Inventory, Shipment, Identity and
-- Warehouse and of the platform library that they share.
--
-- The program is a set of services, each with its own Postgres database. Shipment records
-- shipments and moves them through a state machine; to create one it calls Inventory, which
-- holds stock. Everything else travels as events: a service writes an event into its outbox in
-- the transaction that made the change, and a consumer of another service handles it in a
-- transaction that also marks the event as processed. Warehouse owns the facilities and sends
-- their snapshots, of which Inventory and Shipment keep a replica; Identity signs the tokens
-- that say who a caller is. Requests carry an Idempotency-Key, so that a retry is answered and
-- not run again.
--
-- Which file models what:
--   Base: Boolean tests, signed integers and the rows of a table; it models no code.
--   Platform/Errors, Roles, Auth, Session, Events, Outbox, Consumer, Idempotency, Http: the
--     modules errors.py, roles.py, auth.py, db.py, events.py, outbox.py with models.py,
--     consumer.py, idempotency.py and http.py of libs/sl-platform/src/sl_platform.
--   Inventory/Models, Schemas, Events, Replicas: models.py, schemas.py, events.py and
--     services/replicas.py of services/inventory/src/inventory; Inventory/Consumers: the
--     consumed events of its events.py.
--   Inventory/Holds, Reservations, Reserve: services/reservations.py, ReservationService.
--     `reserve`, `confirm`, `commit`, `release` and `release_expired` are its methods;
--     `lock_holds`, `expire_unconfirmed`, `load_skus`, `replay` and `result` its helpers, less
--     their underscores.
--   Inventory/Stock: services/stock.py, StockService. Inventory/Accounts: the invariant of the
--     accounts. Inventory/System: the service as a transition system.
--   Shipment/StateMachine, Models, Repository: state_machine.py, models.py and repository.py of
--     services/shipment/src/shipment, with services/replicas.py. Shipment/Service: schemas.py
--     and services/shipments.py, ShipmentService. Shipment/Trail: the invariant of the audit
--     trail, and the service as a transition system.
--   Shipment/Saga: `create_shipment` of services/shipment/src/shipment/api/shipments.py with
--     the calls of clients.py and `compensate`, over the databases of both services.
--   Identity/Models, Repository, Auth, Users, Assignments: models.py, repository.py,
--     services/auth.py with the functions of security.py as parameters, and services/users.py
--     with events.py, of services/identity/src/identity. Identity/Sessions: what the methods do
--     to the sessions of users. Identity/System: the service as a transition system.
--   Warehouse/Models, Schemas, Repository, Service: models.py, schemas.py, repository.py and
--     services/warehouses.py with events.py of services/warehouse/src/warehouse.
--     Warehouse/Replicated: its events in the replica of Inventory. Warehouse/Api: the routes
--     of api/warehouses.py that change something, with the roles of api/deps.py, and what they
--     leave as it is. Warehouse/Schedule: the opening hours that are written and read again.
--   Inventory/Tests, Shipment/Tests, Platform/Tests, Identity/Tests, Warehouse/Tests: small
--     databases and runs on them.
--
-- How code becomes definitions. A service's database is a record of tables, and a method is a
-- function `Tx Db A` from the database to a result: a value with the new database, or the
-- exception that was raised, after which the request's session is rolled back. A table is a
-- list of rows in the order of its keys; SELECT is `rows_where`, UPDATE is `update_where`, and
-- `flush` refuses rows that break a CHECK or UNIQUE constraint. An UPDATE of a shipment names
-- the version that was read, and raises where no row has it. A method's Python guards are
-- `raise_if`, in the order of the code. A loop over holds writes positions and hold rows, which
-- are different tables: the model makes the first writes in a loop and the others in one update
-- of the rows that were selected.
--
-- Identifiers are numbers, since the code only compares them, and a generated one is new. Times
-- are seconds, and a method reads the clock once. A Decimal with two places is a number of
-- hundredths, a quantity or balance that could be negative is a signed integer. Concurrency
-- appears as sequences of committed transactions: rows are locked by the transaction that works
-- on them, and the version check of a shipment is stated on a row that was read earlier.
--
-- Bounds: loops are structural recursion, on lists, or on the number of attempts that are left
-- in the consumer and in a call of another service (the limits are arguments), so that every
-- definition is total and none takes fuel.
--
-- Parameters for code that is not in the repository: the hash of a request, the hashes of
-- passwords and tokens, what the network does with each attempt of a call, what Warehouse
-- answers to Identity, str.lower, uuid5, the barcodes that secrets draws, ILIKE, the printing
-- of a reference number, which events the publisher takes, and what the HTTP client raises for
-- an answer that is an error.
--
-- Not modelled: SKU maintenance, the signing and verification of tokens and the cache of keys,
-- the roles that the routes of services other than Warehouse ask for, the wire formats, Kafka,
-- the strength of passwords, message texts, lengths and patterns of strings, the order of
-- listings, and the 32-bit range of columns.
pub mod Base
pub mod Platform
pub mod Inventory
pub mod Shipment
pub mod Identity
pub mod Warehouse

-- ===== src/Lib.antt =====
-- A verification library for the backend of the couriers service (NestJS, TypeORM, PostgreSQL).
--
-- The program. Owners are tenants. Their staff create orders (src/orders/orders.service.ts); couriers
-- on shift (src/couriers/shift-management.service.ts) claim and deliver them, and staff cancel them
-- (src/orders/order-lifecycle.service.ts). A completed delivery leaves an earning, earnings are
-- summed over payout periods, and payouts are recorded (src/payouts/payouts.service.ts). Couriers log
-- in by a code or a password (src/auth/courier-auth.service.ts). Every service works on one database
-- and reports to Socket.IO rooms (src/gateways/orders.gateway.ts) and to job queues
-- (src/queues/queues.constants.ts).
--
-- The files.
--   Prelude: lists as tables (filter, find, count, update, any), their laws, sorting.
--   Entities: a record for each class of src/*/entities, with its columns, and the enumerations.
--   Http: the exceptions that services throw, as values.
--   World: the database (Db), the jobs and messages sent (World), and handlers as functions from a
--     World to a result and a World (Exec). `transaction` undoes the tables after a throw.
--   Gateway: the messages of src/gateways/orders.gateway.ts.
--   Lifecycle: src/orders/order-lifecycle.service.ts. Rules has the transition tables and the WHERE
--     and SET of the updates; Calls the private methods; Handlers claim, advanceStatus and cancel,
--     each composed of a check, which reads, and a commit; Effects, AdvanceEffect and CancelEffect
--     what they do to the tables; Requests the endpoints and runs of them; Rows one request as one
--     update of the table of orders. The theorems are in Diagram, WellFormed, OneActive, Settlement,
--     SettledRuns, Grants, Trail and Tenants for requests that run one after the other, and in
--     Interleaving, Exclusive, Payments, Races and DoubleClaim for requests that overlap.
--     Answers, Delivery and Finish are about the requests that bring an order to its end, Rank about
--     how often a status changes.
--   Orders: create, findAll and findOne (src/orders/orders.service.ts) and getAvailableOrders.
--   Shifts: src/couriers/shift-management.service.ts, all of it.
--   Payouts: src/payouts/payouts.service.ts, all of it.
--   Auth: src/auth/courier-auth.service.ts and src/auth/services/login-attempt-tracker.service.ts.
--   Tracking: src/couriers/courier-tracking.service.ts, all of it.
--   Users: src/users/users.service.ts, all of it.
--   Couriers: src/couriers/couriers-admin.service.ts, all of it.
--   Access: the routes of the controllers with their roles, src/auth/guards/roles.guard.ts and
--     src/auth/strategies/jwt.strategy.ts.
--   Server: every request that writes, of the routes behind JwtAuthGuard and RolesGuard, from the
--     guards and the pipes through the handler to the tables (Requests), and the tables that all services share (Healthy). Frames, Creation and Effects
--     are about one handler each, Runs about sequences of requests, Scope about couriers' tokens.
--   Jobs: the processors of the five queues (src/orders/jobs, src/couriers/jobs,
--     src/auth/code-delivery/code-delivery.processor.ts), on the jobs that the services queue.
--   Panel: the error filters of src/common/filters and, of the admin interface, admin/src/dataProvider.ts,
--     admin/src/authProvider.ts the cancellation of orders in admin/src/pages/orders, the drawer and
--     the status dialog of admin/src/pages/couriers, and the filters of the tables. Bulk runs the loop
--     of the interface against Server, and StaleForm the form of a courier against Couriers.
--   Pagination: the page arithmetic of the list endpoints.
--   Samples, and the module Tests of each part: a small tenant, and runs on it.
--
-- Conventions. Identifiers are numbers, which the database compares; where the code compares their
-- texts, the spelling is kept (PathId in Users, owner_text in Auth). The ones that the database draws
-- are `env.uuid`. Times are milliseconds; the database's clock and the process's are two fields
-- of Env. A calendar date is a day number. Money, distances and coordinates are integers of some unit,
-- so that sums are exact; what a request brings may have more places than its column, and the rounding
-- of the column is in Env. Whether the queues and the Socket.IO server are there is
-- in Env. A statement is atomic, as is a transaction; between the check of a lifecycle request and
-- its commit any others may run, while what follows the update in one commit runs at once. A query
-- without an order gives the rows in the order of the table, and sorting is stable. There is no fuel:
-- every function is a structural recursion. A courier's name is left out of the rows of a period's
-- summary. In Orders, `usable` says whether a transaction still takes a query after a statement that
-- failed; without savepoints PostgreSQL's does not.
--
-- Parameters for code outside the repository: bcrypt, SHA-256, the signing of tokens and random values
-- are the fields of AuthEnv or arguments, of which nothing is assumed. The haversine distance of
-- src/couriers/courier-tracking.service.ts, which is floating point, is an argument too, as are the
-- matching of ILIKE, what Firebase and the HTTP servers answer, `String(…)` of a JSON value, the length
-- of a text and, in the browser, `decodeJwt` of admin/src/authProvider.ts, which only calls `atob` and
-- `JSON.parse`. A token that passport-jwt refuses is `none`; that one is accepted says nothing of how
-- it was signed.
--
-- Whether the throttler's counter or a pipe refuses a request is in Site of Server, and whether the
-- queue still holds the job of a code is in AuthEnv.
--
-- Not modelled: the rules of class-validator, whose DTOs are the records here (a `null` for a column
-- that refuses it is left out); the routes of src/auth/courier-auth.controller.ts as requests of
-- Server, whose services are in Auth; what TypeORM makes of a page or a limit that is no whole
-- number; the guards that only name a key for the library's throttler
-- (src/auth/guards/send-code-throttle.guard.ts, login-throttle.guard.ts); a path parameter that is no
-- UUID, which PostgreSQL or a pipe refuses; the start of Firebase, configuration, modules and
-- adapters, which wire the framework; the retries of BullMQ; migrations, save for their unique
-- indexes and for the rounding of their decimal columns; and, of admin, the components that only
-- place library widgets, and the question whether to discard a touched form. A single order or list
-- is cached and refetched there by the library refine.
pub mod Prelude
pub mod Http
pub mod Entities
pub mod Tracking
pub mod Users
pub mod Couriers
pub mod Access
pub mod Server
pub mod Jobs
pub mod Panel
pub mod World
pub mod Auth
pub mod Gateway
pub mod Lifecycle
pub mod Pagination
pub mod Shifts
pub mod Orders
pub mod Payouts
pub mod Samples

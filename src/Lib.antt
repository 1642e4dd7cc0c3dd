-- ===== src/Lib.antt =====
-- Verification of the mascotapp API (apps/api), a Go service in which shelters publish animals.
--
-- The program's parts and how they meet. A request passes the middlewares of
-- apps/api/internal/httpapi: the client address (clientip.go), CORS and CSRF (cors.go, csrf.go),
-- and RequireAuth and RequireTenant (middleware_auth.go), which verify the access token of
-- apps/api/internal/auth/token.go and open the transaction of apps/api/internal/db/tenant.go. A
-- login and a refresh run the code of apps/api/internal/auth under WithAuthUser of
-- apps/api/internal/db/auth.go: refresh tokens (session.go), recovery codes (recovery.go) and
-- one-time passwords (totp.go), on the queries of apps/api/internal/db/sqlcgen/auth.sql.go.
-- Secrets at rest are sealed by envelope.go.
--
-- The files. Base, Encoding and Errors hold what the parts share: lists and texts over the native
-- numbers, base64 and base32, and the errors. Db.State is the state: the tables, the two settings
-- of one pooled connection (one that had no value when a transaction set it is the empty text
-- afterwards), what the driver will refuse, the random draws, and the response. Db.Tenant and
-- Db.Auth are the transaction wrappers, Db.Queries the statements and Db.Queries.Login the
-- lookups of a login, Db.Atomicity what the wrappers promise, Db.Pool the pools of db.go and
-- Db.Pool.Contract their bounds, Db.Bootstrap the role names of bootstrap.go, with Password,
-- Transaction and Set for SetRolePassword; Db.Hoare and Db.Runs hold rules for code that runs
-- statements. Auth.Session is session.go: Cookie and CookieLaws the cookie, Reuse, Rotation and
-- Replay one secret, Race the interleavings of many. Auth.Recovery, Auth.Token, Auth.Envelope,
-- Auth.Totp and Auth.Password are the files of these names, with their promises in modules below.
-- Config and Email are apps/api/internal/config and apps/api/internal/email. Auth.Totp.Uri is
-- TOTPURI: Escapes and Scanned read it back. Http.ClientIp, Http.Resolved, Http.Origins and
-- Http.Tenancy are the middlewares, and Http.Health the readiness probe of
-- apps/api/internal/httpapi/health.go: Owed and Going follow its goroutines, Ready says what it
-- answers. Rls is apps/api/internal/db/rlstest/catalog.go, the declaration of every table and the
-- checks of it: Schema the declaration, Rules, Scanning and Validated what Validate finds,
-- Catalog, Reading and Protected the checks against the server, Roles the guard of
-- apps/api/internal/db/dbtest/roles.go, and Isolation the case of
-- apps/api/internal/db/dbtest/tenants.go: Probes its steps, Server a server of any policies,
-- Enforced which of them pass it. Rls.Harness is container.go beside it, with what it skips,
-- starts once, opens and closes. Scripts.Doctor is scripts/doctor.go: Recipes and Unknown read
-- the Makefile, Preflight and Verdict run the probes, FirstLine shortens an output.
-- Scripts.Engram is scripts/engram-index.go: Index collects and files the notes, Collected,
-- Grouped and Filed say where a note stands, Summary what a cell holds. Scripts.Text and
-- Scripts.Kept are what the scripts share. The modules named Tests run the theorems at concrete
-- values, except Base.Tests, which holds the Boolean tests that the models share.
--
-- How code corresponds. A Go function that runs statements is a function from the state to an
-- outcome (a value, an error or a panic) and a state, chained by do blocks in the order of the
-- source; one that only fails returns a Result. A statement of SQL is its effect on the rows that
-- the policy of app.user_id shows, with the checks of the constraints of
-- apps/api/internal/db/migrations. A handler is a function of its context, its request and the
-- state. An instant is a number of nanoseconds since 1970 or, for refresh tokens, from any fixed
-- origin. A table of rows in order stands for the set of rows: at most one row has a given
-- primary key.
--
-- Loops are structural recursion over the list that the source ranges over, and so end; no
-- definition uses fuel. sort.Strings is an insertion sort by the order of bytes, in Base.Sorting.
-- A Go map that the code ranges over in sorted order is the list of its entries.
--
-- Concurrency. In Auth.Session.Race.Histories a rotation reads its row, and then runs from the
-- family's advisory lock to its commit as one step, on whatever the row has become; the lock
-- keeps other rotations of the family out, and statements of other families touch no row of it.
-- Logins are steps too. In Http.Health a step is one goroutine that leaves its check, or that
-- appends under the mutex.
--
-- Parameters, whose documented behaviour is a hypothesis where a theorem uses it: SHA-256,
-- HMAC-SHA1, Argon2id, AES-256-GCM, golang-jwt, pgxpool's reading of a connection string,
-- google/uuid, netip's parsers, net.SplitHostPort and url.Parse. What crypto/rand and the uuid
-- generators return is a stream in the state.
--
-- Not modelled: a commit that reports an error is taken not to have happened; the foreign key to
-- users; timestamps are not rounded to microseconds; upper and lower case (of users.email, which
-- is citext, too) and spaces are those of ASCII. Migrations and routing are calls of libraries,
-- and the queries of the other tables and the HTTP types are generated and have no caller.
pub mod Base
pub mod Encoding
pub mod Errors
pub mod Db
pub mod Auth
pub mod Http
pub mod Rls
pub mod Scripts
pub mod Email
pub mod Config

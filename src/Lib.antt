-- ===== src/Lib.antt =====
-- GetException: a self-hosted monitor of JavaScript errors.
--
-- A browser SDK sends an error event as an envelope to the ingest service. The service limits the
-- rate of requests by token buckets, reads the envelope with a JSON reader that has budgets, and
-- inserts the event into the queue table event_inbox. Workers claim rows of the queue under
-- leases, and store each event with its issue, its issue histories and its release in one
-- transaction. The dashboard's server guards the stored data with passwords and TOTP codes, and
-- keeps its members, invitations, projects, ingestion keys and issue states.
--
-- Which file models what:
--
-- Base: names passed on, Boolean tests, lists, equality as an interface (Eq), JavaScript maps
-- (Base/Dict), database tables with a primary key and the client library's calls (Base/Table).
--
-- Ingest/BucketLimiter: apps/ingest/src/bucket-limiter.ts. `take` is BucketLimiter.take, made of
-- `sweep` and `spend`; a `Call` holds its arguments and the clock it reads. Credits are counted in
-- thousandths, exactly, where the source has doubles. Children: Size, Credit, Admission.
--
-- Protocol/Boundary and Protocol/Json: packages/protocol/src/json.ts, boundedJson. `value`,
-- `members` and `elements` are the inner function value and its two loops, on fuel: twice the
-- length of the text and one is enough, since a value takes at least one code unit and at most two
-- calls are made for one. `string`, `scan` and `decode` are the inner function string with the
-- JSON.parse of a literal; `number_length` is the regular expression of numbers. Doubles are a
-- parameter (Numbers). Protocol/Envelope: record and parseEnvelope of the same file, on bytes; the
-- strict UTF-8 decoder is a parameter.
--
-- Ingest/Http, Ingest/Request, Ingest/Server and Ingest/Deposit: apps/ingest/src/http.ts and the
-- handler of createIngestServer in apps/ingest/src/server.ts. The handler yields to other requests
-- at its query and at the body, so it is three parts: `admit`, `check` and, in Ingest/Deposit,
-- `store`. The parser of URLs, SHA-256, isLoopbackOrigin, sanitizeEvent and the answers of the
-- database, its admission trigger included, are parameters; the counter that
-- record_ingest_rejection keeps is left out.
--
-- Worker/Inbox: the queue in apps/worker/src/events.ts (claim, the heartbeat and the fence of
-- processJob, retryJob) and the insert of apps/ingest/src/server.ts. The rows locked by other
-- transactions, the projects that are there, the clock and the random tokens are arguments.
-- Identifiers, tokens and hashes are numbers: they are compared and ordered only.
--
-- Worker/History: apps/worker/src/issue-history.ts, recordIssueObservation and
-- transferIssueHistory, with the database trigger issue_history_chronology that acts on their
-- updates.
--
-- Worker/Process, with Worker/Issue and Worker/Release: processJob and runOne in
-- apps/worker/src/events.ts, with the triggers issue_chronology and release_activity_chronology.
-- The parser of the stored payload, and the resolution of source maps with the fingerprint of its
-- result, are arguments; both may throw. Columns that are only copied are in `Details`. A
-- transaction is one step: the database runs it whole or not at all.
--
-- Web/Crypto: base32, decode32, totp and verifyTotp of apps/web/src/server/crypto.ts. The 32-bit
-- registers wrap explicitly, texts are character codes, and a foreign character is an error. HMAC-SHA1
-- is a parameter. The inner loop of base32 runs at most twice
-- for a byte, so a fuel of three rounds is enough.
--
-- Web/Workspace (its tables in Web/Workspace/Schema), Web/Members, Web/Teams and Web/Invitations:
-- ownerTransaction, saveMember, deleteMember and saveTeam (apps/web/src/server/owner-transaction.ts
-- and members.ts), and InvitationService (apps/web/src/server/invitations/service.ts) but for
-- preview, over one record of tables, `Db`. The answers of AuthService.authorize are arguments of
-- ownerTransaction; so are the schemas' checks of inputs, random identifiers and SHA-256. A
-- transaction is one step that gives a new `Db` or throws (Web/AuthError). Web/Action: an operation
-- of several steps, which may throw behind changes that stay. Web/Issues: changeIssueStatus
-- (apps/web/src/server/issue-workflow.ts), over the issues of Worker/Issue, with projectScope and
-- canResolve (apps/web/src/server/access.ts); Web/Access: teamScope and projectScopeSql of the same
-- file.
--
-- Web/Auth: AuthService (apps/web/src/server/auth-service.ts) and MfaService
-- (apps/web/src/server/mfa.ts). RateLimit is rateLimit; Factor consumeFactor; Login, with Enter,
-- login; Sessions authenticate, authorize, stepUp and the session hook of identity.ts; Setup the
-- setup of an installation; Mfa the enrollment of a second factor. What node:crypto, argon2 and
-- better-auth give are parameters (Primitives).
--
-- Web/Projects and Web/IngestionKeys: apps/web/src/server/projects.ts and ingestion-keys.ts, over
-- the same `Db`. Web/Fixtures: data that the tests share.
--
-- Web/WorkBudget: run of apps/web/src/server/work-budget.ts, as its two steps around the operation.
--
-- SourceMaps: the uploads of source maps. Tables are their tables and files, Scope
-- apps/web/src/server/source-maps/authorization.ts, Body, Reopen, Begin and Write upload.ts beside it,
-- and Validate apps/worker/src/source-maps/uploads.ts. A body is received before the transaction
-- that stores it; in between it is a `Flight`. Ghost, Prepared and Invariant are what the proofs in
-- Reach are made of. SHA-256, zlib, the order of localeCompare, random identifiers, the free bytes
-- of the disk, the answers of authorizeUpload and the parser of a map are parameters.
--
-- Browser/Dsn and Browser/Transport: packages/browser/src/index.ts, dsnEndpoint, the module's
-- state, init, close and the transport that Sentry is given, and packages/browser/src/retry-
-- after.ts. The parser of URLs, dates, and the sanitizer behind a sent body are parameters.
--
-- Protocol/Sanitizer: packages/protocol/src/index.ts, diagnostics.ts and releases.ts. Texts has scrub,
-- safePath and the expressions that test a name or a version; Parts the numbers, times and
-- `String(value)`; Contexts sanitizeTags, sanitizeBreadcrumb and the contexts; Event the event that
-- sanitizeEvent builds; Schema safeEventSchema and sanitizeEvent; Narrow what building an event
-- ensures; Sentry toSentryEvent, whose event the sanitizer reads again. Doubles, the parser of URLs,
-- decodeURIComponent and the replacements are parameters.
--
-- Worker/Retention: apps/worker/src/release-retention.ts, retainReleases as one step on the rows that
-- its statement reads.
--
-- Not modelled: the retention of events and source maps, the resolution of
-- frames, the tokens and policies of source maps, the rest of the SDK, the command line, the
-- configuration and the dashboard's lists and queries; and the user interface, deployment and
-- tests, which hold little logic of their own.

pub mod Base
pub mod Browser
pub mod Ingest
pub mod Protocol
pub mod SourceMaps
pub mod Web
pub mod Worker

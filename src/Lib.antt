-- ===== src/Lib.antt =====
-- Verification of FreeAgents, the marketplace for AI agents.
--
-- The program is a TypeScript server: pure rules in src/domain, adapters for the outside world in
-- src/adapters, and the routes of src/api that compose them. The heart is the hire loop: a job is
-- opened from a brief, its criteria and price are accepted by both parties and confirmed, the work
-- is staged, paid for and opened as a pull request, and a merge or a clock ends it.
--
-- Base: names, tests, results, lists, texts and decimal numbers that the components share. A text
--   is its list of UTF-16 code units; `trim`, `trimEnd`, `join` and template literals are defined
--   on those.
-- Job: src/domain/job.ts and src/domain/hashing.ts; src/domain/settlement.ts and incoming.ts in
--   Job/Settlement.
--   Job/Status has `JobStatus`, `TERMINAL_STATUSES` and `validateJobTransition`; Job/Model the `Job`
--   with all its fields and the errors; Job/Hashing `hashSpec`; Job/Agreement `createJob`,
--   `agreementGap` and `confirmSpec`; Job/Lines and Job/Price the two halves of `proposeCriteria`,
--   Job/Exchange the whole, with `requestChanges`, `acceptCriterion` and `acceptPrice`;
--   Job/Lifecycle the operations on a confirmed job; Job/Clocks the four clocks and `applyLapses`.
--   Job/Event lists the calls that a job can take and runs them; Job/Edges is the transition table as
--   a relation, and Job/Step what a call may do as a relation, with the acceptances that the call
--   rests on; Job/Consent has what it means that a job shows an acceptance and that a call gave it.
--   The other modules of Job prove things of these, and Job/Tests and Job/Examples run them on a
--   small hire.
--
-- Payment: src/domain/payment.ts.
--   Payment/Numeral reads a decimal as the regular expression matches it; Payment/Amount has
--   `calculateFee`, `depositUsd` and `remainderUsd`, Payment/Token `usdToTokenAmount` and
--   `toBaseUnits`, Payment/Worth `tokenAmountWorthUsd` and `coversAgreedUsd`. Payment/Legs, Quote,
--   Units and Cover are about what they compute, with lemmas on digits and powers of ten in
--   Payment/Digits, Reading, Printing and Scale; Payment/Tests and Payment/Examples run them.
-- Conduct: src/domain/buyer-conduct.ts.
--   Conduct/Buyer has `buyerConductRecord` and `buyerConductThresholdFailure`, Conduct/Operator
--   `operatorConductRecord`. Conduct/Counts, Outcomes and Thresholds are about the records,
--   Conduct/History and Chairs join them to the jobs of Job, and Conduct/Examples runs them.
-- Streams: src/api/stream-caps.ts.
--   Streams/Caps has `createStreamCaps` with `acquire`, `release` and `give`, and
--   `holdUntilClosed`. Streams/Counted, Released and Places relate the table to the open
--   streams, and Streams/Examples runs them. Base/Table is the `Map`.
-- Limiter: src/adapters/identity/verify-rate-limit.ts.
--   Limiter/Buckets has the `middleware` of `createRateLimiter`, Limiter/Windows is
--   about a window and Retry-After, and Limiter/Examples runs it.
-- Evidence: src/domain/liveness.ts, compromise.ts, freshness.ts and evidence.ts, and the keys of
--   src/domain/agent.ts.
--   Evidence/Moment has `parseInstant`, Evidence/Keys `didSuffix` and `sameKey`,
--   Evidence/Compromise `disputedBy`, Evidence/Liveness `livenessStatus`, Evidence/Freshness
--   `recordLastChangedAt` and Evidence/Tier `evidenceTier`; Evidence/Names says, apart from the
--   code, when two texts name one DID or one key, and Evidence/Disputes and Activity are about `disputedBy` and `livenessStatus`, and Evidence/Examples runs them.
--
-- Server: the routes of the hire loop in src/api/app.ts, and what they call.
--   Server/Ports has the answers, the state (a tick, the tables of jobs, credentials and
--   attestations, the messages and the notices) and the ports: the clock, the storage's failures,
--   the settlement gate, the payment records, the agents' rows, the identity and credential
--   adapters and GitHub. A port is a function of the tick, which every call moves on. Server/Route
--   has a handler as an action on the state: an error answer ends the handler, and what was
--   written before stays; also `findById`, `update` and `complete` of the jobs' repository in
--   src/adapters/storage/memory.ts. Server/Parties has who acts, Server/Holds what holds a payment
--   leg (src/adapters/payment/route-support.ts), Server/Notices the system rows and notices,
--   Server/Links the URL of a pull request and `chainIdentifiersMatch`, Server/Observe
--   `observePullRequest`, `completeMergedPullRequest` and the credentials, Server/Clocks
--   `applyLiveLapses`, `loadForExchange` and `liveLapsesForList`, Server/Exchange
--   `applyAndPersist`, `runExchange` and `requireSignedParty`. The routes are in Server/Terms
--   (criteria, request-changes, accept, price/accept, withdraw, decline), Server/Confirm,
--   Server/Work (stage, staged-decline, redo, redo-refuse, cited-close), Server/Submit
--   (pull-request) and Server/Merge, and Server/Ancestry has `descendsFrom`. Server/Requests lists
--   the requests and answers one, or a sequence of them.
--   Server/Post, Reads, Rows, Ends and Refused are about what an action gives, keeps and leaves,
--   with a module for each group of routes, and Server/Examples runs the routes on a small hire.
--
-- An operation that throws answers `err` with the error's class and data; the sentence of its
-- message is left out. A `Date` is its milliseconds since the epoch, from zero up, and is never
-- invalid but in Evidence. Values that the code checks against a few literals at run time (a seat,
-- a rail) are texts; other values have the types that the source declares, so its `typeof` checks of
-- them are left out. SHA-256 is the hash of node:crypto and enters as a function on texts, as do
-- `toLowerCase` and the comparison of two prices as Numbers. The walk of `descendsFrom` runs on
-- fuel, a round for each depth from 0 to 500, as its loop is bounded; nothing else runs on fuel.
--
-- A request of Server is answered to its end before the next one starts, so the interleaving of
-- two handlers across a wait is not modelled. A route's body comes parsed, each field present with
-- its type or not. `jobProjection`, the sentences of errors, log lines, the ids of messages and the
-- times of messages and notices are left out, and the deadlines that a status has passed are those
-- of Job/Clocks. `buildAttestation` of src/domain/attestation.ts and the signing of credentials are
-- ports.
--
-- Not modelled: `pullRequestTemplate` (text for display); live streams, webhooks and push messages;
-- the routes that open a job, take payments, messages and reviews, list agents or sign in; the
-- middleware before a route; the Prisma driver; the web pages; and the adapters that no module above
-- names. `Date.parse` is a parameter.
pub mod Base
pub mod Job
pub mod Payment
pub mod Conduct
pub mod Streams
pub mod Limiter
pub mod Evidence
pub mod Server

-- ===== src/Lib.antt =====
-- A verification library for RelayIt, the service of this repository that accepts messages over an
-- API and delivers them through the email providers of an organization.
--
-- The program. The HTTP API and the web application (apps/) call the packages. packages/channels
-- accepts a message, reserves usage for each delivery and enqueues a job; packages/jobs runs jobs
-- from Redis streams with retries and dead letters; the email delivery job sends a delivery through
-- a provider and its standbys under a circuit breaker, and confirms or moves the reserved usage;
-- packages/webhooks turns what happened into signed requests to the endpoints of customers, again
-- by jobs, which a transaction puts into an outbox that publishers move to Redis; a verification job checks the DNS records of sender domains at growing intervals.
--
-- The files, and the code that each models:
--   Usage, Usage/Ledger      packages/channels/src/usage-ledger.ts: RESERVE_SCRIPT, REMETER_SCRIPT,
--                            CONFIRM_SCRIPT and RELEASE_SCRIPT are reserve_script, remeter_script,
--                            confirm_script and release_script over the interface of Redis; a Call
--                            is a script with its KEYS and ARGV, `evaluate` runs one, `run` a list
--   Usage/Service            packages/channels/src/usage.ts: reserve, remeter, confirm and release
--                            of UsageLive are reserve_usage, remeter_usage, confirm_usage and
--                            release_usage, with the keys and arguments of makeUsageLedger
--   Jobs, Jobs/Work, Jobs/Worker
--                            packages/jobs/src/worker.ts: processJob is process_job; its branches
--                            are reject_envelope, reject_payload, schedule and give_up
--   Jobs/Storage             packages/jobs/src/storage.ts: the keys and the four Lua scripts, named
--                            as theirs; Promotion and Recurrence have histories of commands
--   Jobs/Client              packages/jobs/src/client.ts: enqueueImpl, scheduleImpl and cancelImpl are
--                            enqueue, schedule_job and cancel_job, encodeJob of storage.ts encode_job
--   Jobs/Outbox              packages/jobs/src/outbox.ts: claimOutboxJobs is claim_jobs,
--                            releaseClaim release_claim, markPublished mark_published and the rest
--                            of publishOutboxJob after_publish; Publishing has the publishers as a
--                            step relation, in which each may stop at any point
--   Delivery/Circuit         packages/channels/src/messages/delivery/circuit.ts:
--                            providerCircuitAllow, RecordFailure and RecordSuccess, over hashes that
--                            expire (Redis/Expiring)
--   Delivery/Email           packages/channels/src/email/delivery: Identities models identities.ts
--                            (listFailoverProviderIdentities is list_failover); Send, Failover,
--                            Failures and Handler model handler.ts (trySendWithIdentity is
--                            try_send, markSent mark_sent, the part of handle from the primary
--                            identity on send_all, handle handle, classifyFailure
--                            classify_failure, onDeadLetter on_dead_letter)
--   Verification/Cadence     packages/channels/src/email/verification/cadence.ts, function by
--                            function
--   Accept/Contacts, Accept/Suppressions, Accept/Idempotency
--                            packages/channels/src/messages: accept/contacts.ts, suppressions.ts and
--                            accept/idempotency.ts, function by function
--   Accept/Email             packages/channels/src/email/accept/accept.ts: Pipeline follows
--                            acceptTransactionalEmail (accept_transactional_email): `prepare` of
--                            Reads is its reads, `transact` its transaction, `compensate`
--                            compensateAcceptFailure; Effects and Promises say what it is to leave
--                            behind, Transaction, Outcomes and Replays prove it
--   Accept/Policy            packages/channels/src/email/accept/policy.ts, function by function
--   Webhooks, Webhooks/Deliver
--                            packages/webhooks/src/deliver.ts: claimDelivery is claim_delivery,
--                            markDelivered mark_delivered, markFailed mark_failed, the handler
--                            handle, onDeadLetter on_dead_letter
--   Webhooks/Emit            packages/webhooks/src/emit.ts: endpointMatches is endpoint_matches,
--                            emitWebhookEvent emit_webhook_event
--   Webhooks/Endpoints       packages/webhooks/src/endpoint-lifecycle.ts and endpoints.ts, function
--                            by function
--   Webhooks/Replay          replayWebhookDelivery of endpoint-lifecycle.ts
--   Webhooks/Deliveries      all operations that write the rows of webhook deliveries
--   Prelude, Effects, Redis  what the parts share: lists and results, code that calls its
--                            surroundings, and the interfaces of the Redis commands (Redis for counters
--                            and hashes, Redis/Expiring for hashes with a time to live, Redis/Queues
--                            for streams and sorted sets). Redis/Model, Redis/Queues/Model and `store`
--                            of Redis/Expiring are concrete stores that satisfy them.
-- A module below a component's module states and proves what its own comment says; a module Tests
-- has runs on concrete input and an instance of each theorem.
--
-- How state is modelled. A Lua script is a function on the state of a `Redis`, since Redis runs a
-- script alone; the interface has the commands that the scripts use, with the documented laws of
-- reads after writes, and all theorems on scripts hold for every implementation of it. An expired
-- key is a missing key, so that expiry happens between scripts only, and `run` lets no key of the
-- usage ledger expire. The breaker's hash does expire: each of its calls has a time, which the workers
-- and Redis read from one clock.
-- The job worker and the delivery job call many services. They are functions from a history of
-- calls to a result and a longer history (Effects), and a record Surroundings answers each call
-- from the history so far. Every theorem holds for all surroundings, which covers every sequence of
-- failures and every interleaving with other processes that changes the answers.
--
-- A table of the database is a list of rows (Prelude/Tables), an UPDATE changes the rows that its
-- condition selects, and a transaction succeeds as a whole or changes nothing: its statements
-- answer as a Boolean each, and where one fails the tables are those from before. Runs that overlap
-- are steps or commands in any order.
--
-- Numbers. Times, counters, limits and delays are natural numbers. The source's numbers are doubles,
-- in which these values are exact below 2 ^ 53. The limit -1 of the scripts is `unlimited`. Loops
-- are structural recursion over the list that they read. `drive` of Jobs/Worker/Attempts runs a job
-- for a number of rounds; drive-attempts states how many are enough.
--
-- What is a parameter: the database, Redis, the clock, the codecs of Effect's Schema, the
-- handlers of jobs, the usage policy (usage-policy.ts), the attachments' loader, the suppression
-- list of the delivery job, the content, sender, environment, provider kind and staged
-- attachments of an acceptance, trimming, lowering and splitting of addresses, the row that an
-- upsert of a contact writes, the rule for unsubscribe headers, the credentials' vault, the
-- adapters of providers, HTTP, HMAC and the generator of ids, tokens and secrets. The vault, the
-- usage policy, the headers, and what an acceptance reads and stages are code of this repository
-- that is not modelled; the suppressions and the policy of senders are modelled on their own.
--
-- Not modelled: log calls, error causes and the time stamps that are only stored; the loops of
-- worker.ts around processJob; app environments, content and attachments, sender domains and
-- sandboxes, deliverability, DKIM and DNS of packages/channels; the packages templating,
-- persistence, redis, object-storage and provider-aws; the HTTP API; the user interfaces
-- apps/web, apps/template-builder and packages/ui.
pub mod Prelude
pub mod Effects
pub mod Redis
pub mod Usage
pub mod Delivery
pub mod Verification
pub mod Jobs
pub mod Webhooks
pub mod Accept

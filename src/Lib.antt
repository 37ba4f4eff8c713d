-- ===== src/Lib.antt =====
-- The money core of SettleFlow, a payment back end for merchants. An intent to pay is created,
-- captured and refunded; every movement of money is posted to a ledger in double entry; each command
-- runs once per idempotency key, and tells of what it did by an event in an outbox, all in one
-- transaction of the database.
--
-- Files:
--   Common        tests on numbers, lists, texts (lists of UTF-16 code units), integers, the patterns of
--                 identifiers, the error classes of the packages, and Action, a call that may throw and
--                 that threads a state
--   Database      the tables as lists of rows, oldest first (prisma/schema.prisma): a Call is an Action
--                 on them
--   Ledger        packages/modules/ledger/src. Posting: buildCaptureEntries and its like
--                 (ledger-posting.ts). Integrity: the trigger settleflow_assert_ledger_transaction of
--                 prisma/migrations/20260802180000_immutable_double_entry_ledger_foundation. Repository:
--                 createPosting and findPostedForReversal (prisma-ledger.repository.ts). Service:
--                 postCapture, postRefund, postSettlement and reverse (ledger.service.ts). Provisioning:
--                 provisionAccounts. Soundness, Balance and Effects hold the proofs
--   Idempotency   packages/modules/idempotency/src. Repository: acquire and complete
--                 (prisma-idempotency.repository.ts). Completion, Replay and Leases hold the proofs
--   Eventing      packages/modules/eventing/src. Outbox: the events of the payments and
--                 insertDomainEvent. Retry: calculateFullJitterBackoff (outbox-retry.ts). Relay:
--                 Repository has claimPending and finalize (prisma-outbox-relay.repository.ts), Service
--                 has runOnce (outbox-relay.service.ts); Claims, Finalizations, Rows, Rounds and Drain
--                 hold the proofs. Inbox: processForConsumer (inbox.service.ts) and reserve
--                 (prisma-inbox.repository.ts); Handling and Deduplication hold the proofs
--   Payments      packages/modules/payments/src. Repository: prisma-payment-intent.repository.ts.
--                 Responses: representations, problem documents and replays. Operations: what create,
--                 capture and refund do within a transaction. Service: create, capture, refund and get
--                 (payment-intent.service.ts). Atomicity, Preservation, Steps, Projection, Refunds, Drift
--                 and Accounting hold the proofs for one command, Histories for any sequence of them
--   Reconciliation
--                 packages/modules/reconciliation/src/reconciliation-classifier.ts:
--                 Classifier. Matching, Coverage and Exact hold the proofs
--   Settlements   packages/modules/settlements/src: Plan, what a run computes from the rows that it has
--                 locked (settlement.service.ts, settlement-policy.ts); Totals holds the proofs
--   Webhooks      packages/modules/webhooks/src: the delivery of events to the endpoints of merchants.
--                 Rows and Checks: the tables and their constraints
--                 (prisma/migrations/20260802150000_signed_webhook_delivery_and_retries). Repository,
--                 Starting and Finishing: the calls of prisma-webhook-delivery.repository.ts.
--                 Classification: webhook-delivery-retry.ts. Loading: loadContext. Service: runOnce of
--                 webhook-delivery.service.ts. Bookkeeping, Marking, Attempts, Starts, Finishes,
--                 Histories, Runs and Evidence hold the proofs. Messages and Projection: handle of
--                 payment-created-webhook-projection.service.ts and
--                 prisma-webhook-projection.repository.ts; Outcomes and Effects hold the proofs.
--                 Signature: webhook-delivery-signature.ts; Decimals and RoundTrip hold the proofs
--   Tests         the theorems at concrete inputs
--
-- The payment commands call acquire, then complete with an operation that calls the repository of the
-- payments, the ledger's service and the outbox on one state. The relay claims the rows of the outbox
-- under a lease, hands them to the broker and settles each row by what the broker answers. The webhook
-- service claims deliveries, starts an attempt, sends it and records its outcome. The deliveries come
-- from the projection, which handles each event as an effect of the inbox. A transaction that throws
-- gives back the state that it began with. What is outside the program is an argument: the clock, the
-- drawn identifiers, the hash functions, the answer of the payment provider, the broker, the cipher of
-- the webhook secrets, HMAC with its encoding in base64url, the resolution of URLs, the HTTP client
-- and the number that `random` draws, an exact fraction, and for each attempt at a transaction the
-- error with which the database aborts it, if any. Concurrency is modelled where the code orders it: a
-- transaction sees the database as the ones before it have left it, since each locks its key and row.
--
-- The loops of complete and of the commands make three attempts; the model counts the rounds that are
-- left, three at the start, so that no run is cut short. The inbox makes as many attempts as it is set
-- to, and the projection three. The digits of a number n are drawn out in at most n + 1 divisions.
-- Amounts of the ledger are integers with the code's bound of 2^53 - 1, amounts of the payments
-- natural numbers, as the validation of the requests makes them. Identifiers are compared as texts;
-- times are milliseconds.
--
-- Not modelled: the observers and signals of the webhooks, the ledger and the payments, which are told
-- of an outcome and cannot change it; the checks on the form of rows and of stored JSON that the types
-- of the model make true; time limits of transactions; the constraint on the status projection of the
-- payment intents, which is shown to hold instead; the columns locked_at and updated_at, which nothing
-- modelled reads; that the claims of one run of the webhooks go on side by side (Promise.all), where
-- the model takes them one after another; the rest of settlement runs, the import of provider reports
-- and the storing of their results; the registration of webhook endpoints; the validation of the
-- messages of the broker; the HTTP API, the worker's timers, and all that is input and output only.
pub mod Common
pub mod Database
pub mod Ledger
pub mod Idempotency
pub mod Eventing
pub mod Payments
pub mod Reconciliation
pub mod Settlements
pub mod Webhooks
pub mod Tests

-- ===== src/Common/Errors.antt =====
-- The error classes of the packages, by package.

-- packages/modules/ledger/src/ledger.errors.ts
pub data LedgerError : Type 0 where
  invalid_command accounts_not_provisioned identifier_collision : LedgerError
  business_reference_conflict reversal_conflict transaction_not_found : LedgerError
  invariant_violation : LedgerError

-- packages/modules/payments/src/payments.errors.ts
pub data PaymentError : Type 0 where
  invalid_request unsupported_currency unsupported_capture_method intent_not_found : PaymentError
  external_reference_conflict payment_identifier_collision : PaymentError
  identifier_generation_exhausted capture_amount_mismatch intent_not_capturable : PaymentError
  intent_not_refundable currency_mismatch refund_amount_exceeds_available : PaymentError
  refund_external_reference_conflict refund_identifier_collision : PaymentError
  provider_declined provider_unavailable projection_invariant : PaymentError

-- packages/modules/idempotency/src/idempotency.errors.ts
pub data IdempotencyError : Type 0 where
  key_reused request_in_progress key_expired ownership_lost : IdempotencyError

-- packages/modules/eventing/src/eventing.errors.ts
pub data EventingError : Type 0 where
  event_identifier_collision permanent_processing inbox_message_conflict : EventingError
  transaction_retry_exhausted : EventingError

-- packages/modules/settlements/src/settlement.errors.ts
pub data SettlementError : Type 0 where
  settlement_invalid_request cutoff_not_closed fee_policy_invalid fee_exceeds_gross :
      SettlementError
  identifier_exhausted batch_not_found settlement_invariant : SettlementError

-- packages/modules/webhooks/src/webhook.errors.ts, of the projection
pub data WebhookError : Type 0 where
  delivery_identifier_collision delivery_identifier_exhausted : WebhookError
  event_projection_conflict : WebhookError

-- What a call can throw. `serialization_failure` and `transient_database` are the transient errors of
-- the database driver (TRANSIENT_TRANSACTION_CODES of packages/infrastructure/src/database-error.ts),
-- the first those with one of the codes 40001, 40P01 and P2034; `database` is any other;
-- `unclassified` is an `Error` of no class of its own.
pub data Error : Type 0 where
  ledger : LedgerError → Error
  payment : PaymentError → Error
  idempotency : IdempotencyError → Error
  eventing : EventingError → Error
  settlement : SettlementError → Error
  webhook : WebhookError → Error
  serialization_failure transient_database unavailable_database database : Error
  unclassified : Error

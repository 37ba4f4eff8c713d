-- ===== src/Tests/Payments.antt =====
-- The theorems on the payment commands at concrete inputs: an intent is created, captured and refunded in
-- part; then a command of each kind is refused.
use settle_flow.Database.Ledger.{etb}
use settle_flow.Payments.Drift.{drift}
use settle_flow.Tests.World.{
  world, creating, capturing, refunding, fixed_ulid, refunded_books, too_much,
}
use settle_flow.Common.Int.{◌-ℤ◌, ◌+ℤ◌}
use settle_flow.Ledger.Service.{post_refund, post_capture, post, is_bad_money, is_bad_common}
use settle_flow.Common.Errors.{refund_amount_exceeds_available, payment}
use settle_flow.Ledger.Repository.{lacks_accounts, insert_error, has_code, create_posting}
use settle_flow.Eventing.Outbox.{insert_domain_event, create_payment_event}
use settle_flow.Common.Patterns.{
  trim, replicate, match_classes, is_uuid, is_space, is_request_id, is_public_id, is_hex, is_digit,
  is_crockford, is_alphanumeric, contains_control_character,
}
use settle_flow.Payments.Operations.{
  refund_operation, refund_locked, refund_error, error_result, create_operation, capture_operation,
  capture_locked, capture_error,
}
use settle_flow.Ledger.Posting.{is_bad_amount, build_refund_entries, build_capture_entries}
use settle_flow.Ledger.Integrity.{side_total, is_consistent, assert_ledger_transaction}
use settle_flow.Payments.Repository.{
  update_one, lock_by_public_id, find_by_public_id, create_refund, apply_refund,
}
use settle_flow.Idempotency.Repository.{
  replay_of, new_key, complete_once, complete_from, complete, acquire_row, acquire,
}
use settle_flow.Common.{ℕ, ◌≡◌, ◌∷◌, refl, map, []}
use settle_flow.Common.Text.{text_eq}
use settle_flow.Payments.Service.{
  with_identifiers, unwrap, try_refund, try_create, try_capture, refund_acquired, execute_provider,
  create_acquired, create, complete_problem, capture_acquired, approved, acquire_command,
  Environment,
}
use settle_flow.Payments.Responses.{
  to_representation, replay_refund, replay_create, replay_capture, command_problem,
}
use settle_flow.Tests.Data.{merchant, books}
use settle_flow.Payments.Projection.{is_projected, has_capture_time, IsProjected}
use settle_flow.Payments.Atomicity.{unkeyed}
use settle_flow.Ledger.Soundness.Invariant.{IsSound}
use settle_flow.Payments.Histories.{
  PaymentCommand, create_with, capture_with, refund_with, perform, failure, history,
  history-IsProjected, history-RefundsAgree, history-IsSound, history-drift, failed-clean,
}
use settle_flow.Payments.Refunds.{RefundsAgree}
use settle_flow.Common.{List}

-- An intent is created, captured and refunded in part.
abbrev run : List (Environment × PaymentCommand)
run =
    (fixed_ulid (world 1), create_with creating)
    ∷ (world 2, capture_with capturing)
    ∷ (world 3, refund_with (refunding 700))
    ∷ []

-- What the commands have left behind.
captured_refunded :
    map {B = ℕ × ℕ}
      (λ p. (p.captured_amount_minor, p.refunded_amount_minor))
      (history run books).payment_intents
    ≡ (2500, 700) ∷ []
unfolding is_projected has_capture_time assert_ledger_transaction is_consistent side_total
    settle_flow.Payments.Service.create settle_flow.Payments.Service.capture
    settle_flow.Payments.Service.refund create_acquired capture_acquired refund_acquired try_create
    try_capture try_refund with_identifiers unwrap execute_provider complete_problem acquire_command
    create_operation capture_operation refund_operation capture_locked refund_locked error_result
    capture_error refund_error command_problem replay_create replay_capture replay_refund
    to_representation settle_flow.Payments.Repository.create settle_flow.Payments.Repository.capture
    apply_refund create_refund update_one lock_by_public_id find_by_public_id insert_domain_event
    create_payment_event complete complete_from complete_once acquire acquire_row new_key replay_of
    is_bad_common is_bad_money post post_capture post_refund has_code lacks_accounts insert_error
    create_posting is_bad_amount build_capture_entries build_refund_entries is_digit is_hex
    is_crockford is_alphanumeric replicate match_classes is_public_id is_uuid is_request_id is_space
    trim contains_control_character text_eq ◌+ℤ◌ ◌-ℤ◌ perform history failure
captured_refunded = refl

history-IsProjected_example : IsProjected (history run books)
history-IsProjected_example = history-IsProjected run books tt

history-RefundsAgree_example : RefundsAgree (history run books)
history-RefundsAgree_example =
    history-RefundsAgree run books (record { distinct = tt; known = tt; totals = tt })

history-IsSound_example : IsSound (history run books)
history-IsSound_example = history-IsSound run books (record { checked = tt; distinct = tt })

history-drift_example : drift merchant etb (history run books) ≡ drift merchant etb books
history-drift_example = history-drift merchant etb run books tt

failed-clean_example :
    unkeyed (perform (world 4) (refund_with too_much) refunded_books) ≡ unkeyed refunded_books
unfolding is_projected has_capture_time assert_ledger_transaction is_consistent side_total
    settle_flow.Payments.Service.create settle_flow.Payments.Service.capture
    settle_flow.Payments.Service.refund create_acquired capture_acquired refund_acquired try_create
    try_capture try_refund with_identifiers unwrap execute_provider complete_problem acquire_command
    create_operation capture_operation refund_operation capture_locked refund_locked error_result
    capture_error refund_error command_problem replay_create replay_capture replay_refund
    to_representation settle_flow.Payments.Repository.create settle_flow.Payments.Repository.capture
    apply_refund create_refund update_one lock_by_public_id find_by_public_id insert_domain_event
    create_payment_event complete complete_from complete_once acquire acquire_row new_key replay_of
    is_bad_common is_bad_money post post_capture post_refund has_code lacks_accounts insert_error
    create_posting is_bad_amount build_capture_entries build_refund_entries is_digit is_hex
    is_crockford is_alphanumeric replicate match_classes is_public_id is_uuid is_request_id is_space
    trim contains_control_character text_eq ◌+ℤ◌ ◌-ℤ◌ perform history failure
failed-clean_example =
    failed-clean (world 4) (refund_with too_much) (payment refund_amount_exceeds_available)
      refunded_books refl

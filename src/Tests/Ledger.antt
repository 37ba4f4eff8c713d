-- ===== src/Tests/Ledger.antt =====
-- The ledger's theorems at concrete inputs.
use settle_flow.Ledger.Effects.TrialBalance.{trial_balance, total_balance}
use settle_flow.Ledger.Effects.Reversal.{reverse_twice, reverse-balance}
use settle_flow.Ledger.Effects.Settlement.{settlement_effect, post_settlement-balance}
use settle_flow.Ledger.Soundness.Commands.{post_settlement-IsSound, post-IsSound}
use settle_flow.Common.Action.{err}
use settle_flow.Ledger.Integrity.{side_total, is_consistent, assert_ledger_transaction}
use settle_flow.Common.Errors.{Error}
use settle_flow.Common.Text.{text, Text, text_eq}
use settle_flow.Common.{some, if◌then◌else◌, ◌≡◌, refl}
use settle_flow.Common.Int.{◌-ℤ◌, ◌+ℤ◌, pos}
use settle_flow.Ledger.Service.{
  reverse_original, post_refund, is_bad_settlement, reverse, post_settlement, post_capture, post,
  is_bad_money, is_bad_common,
}
use settle_flow.Database.Ledger.{
  fee_revenue, capture, LedgerTransaction, Currency, AccountCode, merchant_payable, etb,
}
use settle_flow.Ledger.Repository.{
  find_posted_for_reversal, lacks_accounts, insert_error, has_code, create_posting,
}
use settle_flow.Common.Patterns.{
  is_public_id, is_crockford, trim, replicate, match_classes, is_uuid, is_space, is_request_id,
  is_hex, is_digit, is_alphanumeric, contains_control_character,
}
use settle_flow.Ledger.Posting.{
  build_settlement_entries, build_reversal_entries, build_refund_entries, is_bad_amount,
  build_capture_entries,
}
use settle_flow.Ledger.Balance.{net, belongs, balance}
use settle_flow.Database.{Database}
use settle_flow.Tests.Data.{books, generated, generated2, money, settled, undo, merchant}
use settle_flow.Ledger.Effects.{
  refund_effect, post_refund-balance, post_capture-balance, capture_effect,
}
use settle_flow.Ledger.Soundness.Invariant.{IsSound}

abbrev after_capture : Database
after_capture = (post_capture generated money books).1

abbrev after_settlement : Database
after_settlement = (post_settlement generated2 settled after_capture).1

abbrev after_undo : Database
after_undo = (reverse generated2 undo after_capture).1

books-IsSound : IsSound books
books-IsSound = record { checked = tt; distinct = tt }

post_capture-balance_example :
    balance merchant etb merchant_payable after_capture.ledger_transactions
    ≡ balance merchant etb merchant_payable books.ledger_transactions
      +ℤ capture_effect (pos 2500) merchant_payable
unfolding is_bad_common is_bad_money post post_capture has_code lacks_accounts insert_error
    create_posting is_bad_amount build_capture_entries is_digit is_hex is_alphanumeric replicate
    match_classes is_uuid is_request_id is_space trim contains_control_character text_eq ◌+ℤ◌ ◌-ℤ◌
post_capture-balance_example =
    post_capture-balance generated money books refl merchant etb merchant_payable

post_refund-balance_example :
    balance merchant etb merchant_payable
      (post_refund generated2
        (record money { amount_minor = pos 700; business_reference = text "rf_1" })
        after_capture).1.ledger_transactions
    ≡ balance merchant etb merchant_payable after_capture.ledger_transactions
      +ℤ refund_effect (pos 700) merchant_payable
unfolding is_bad_common is_bad_money is_bad_settlement post post_capture post_refund post_settlement
    reverse_original reverse has_code lacks_accounts insert_error create_posting
    find_posted_for_reversal is_bad_amount build_capture_entries build_refund_entries
    build_settlement_entries build_reversal_entries is_digit is_hex is_crockford is_alphanumeric
    replicate match_classes is_public_id is_uuid is_request_id is_space trim
    contains_control_character text_eq ◌+ℤ◌ ◌-ℤ◌
post_refund-balance_example =
    post_refund-balance generated2
      (record money { amount_minor = pos 700; business_reference = text "rf_1" }) after_capture refl
      merchant etb merchant_payable

post_settlement-balance_example :
    balance merchant etb fee_revenue after_settlement.ledger_transactions
    ≡ balance merchant etb fee_revenue after_capture.ledger_transactions
      +ℤ settlement_effect (pos 2000) (pos 50) (pos 1950) fee_revenue
unfolding is_bad_common is_bad_money is_bad_settlement post post_capture post_refund post_settlement
    reverse_original reverse has_code lacks_accounts insert_error create_posting
    find_posted_for_reversal is_bad_amount build_capture_entries build_refund_entries
    build_settlement_entries build_reversal_entries is_digit is_hex is_crockford is_alphanumeric
    replicate match_classes is_public_id is_uuid is_request_id is_space trim
    contains_control_character text_eq ◌+ℤ◌ ◌-ℤ◌
post_settlement-balance_example =
    post_settlement-balance generated2 settled after_capture refl merchant etb fee_revenue

reverse-balance_example :
    (o : LedgerTransaction) × (find_posted_for_reversal merchant undo.original_public_id
        after_capture
      ≡ some o)
    × ((m : Text) (cur : Currency) (code : AccountCode)
        → balance m cur code after_undo.ledger_transactions
            +ℤ (if belongs m cur o then net code o.entries else pos 0)
          ≡ balance m cur code after_capture.ledger_transactions)
unfolding is_bad_common is_bad_money is_bad_settlement post post_capture post_refund post_settlement
    reverse_original reverse has_code lacks_accounts insert_error create_posting
    find_posted_for_reversal is_bad_amount build_capture_entries build_refund_entries
    build_settlement_entries build_reversal_entries is_digit is_hex is_crockford is_alphanumeric
    replicate match_classes is_public_id is_uuid is_request_id is_space trim
    contains_control_character text_eq ◌+ℤ◌ ◌-ℤ◌
reverse-balance_example = reverse-balance generated2 undo after_capture refl

reverse_twice_example : (e : Error) × (reverse generated undo after_undo ≡ (err e, after_undo))
unfolding is_bad_common is_bad_money is_bad_settlement post post_capture post_refund post_settlement
    reverse_original reverse has_code lacks_accounts insert_error create_posting
    find_posted_for_reversal is_bad_amount build_capture_entries build_refund_entries
    build_settlement_entries build_reversal_entries is_digit is_hex is_crockford is_alphanumeric
    replicate match_classes is_public_id is_uuid is_request_id is_space trim
    contains_control_character text_eq ◌+ℤ◌ ◌-ℤ◌
reverse_twice_example = reverse_twice generated2 generated undo undo after_capture refl refl refl

post-IsSound_example : IsSound after_capture
unfolding post_capture
post-IsSound_example = post-IsSound generated money capture books books-IsSound

after_capture-IsSound : IsSound after_capture
unfolding assert_ledger_transaction is_consistent side_total is_bad_common is_bad_money post
    post_capture has_code lacks_accounts insert_error create_posting is_bad_amount
    build_capture_entries is_digit is_hex is_alphanumeric replicate match_classes is_uuid
    is_request_id is_space trim contains_control_character text_eq ◌+ℤ◌ ◌-ℤ◌
after_capture-IsSound = record { checked = (refl, tt); distinct = (refl, tt) }

post_settlement-IsSound_example : IsSound after_settlement
post_settlement-IsSound_example =
    post_settlement-IsSound generated2 settled after_capture after_capture-IsSound

trial_balance_example : total_balance merchant etb after_capture.ledger_transactions ≡ pos 0
trial_balance_example = trial_balance after_capture merchant etb after_capture-IsSound

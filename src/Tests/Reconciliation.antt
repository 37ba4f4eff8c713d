-- ===== src/Tests/Reconciliation.antt =====
-- The classifier at concrete inputs: an exact match, a repeated row, a row whose amount differs, and a
-- record that no row names.
use settle_flow.Common.Int.{ℤ, pos}
use settle_flow.Database.Ledger.{etb}
use settle_flow.Common.Text.{text_eq, text, Text}
use settle_flow.Reconciliation.Classifier.{
  unique_index, platform_only, matched_exact, find_platform, event_name, duplicate_provider_row,
  consumed_key, compare_rows, classify_row, classify_reconciliation, classify_provider_rows,
  capture_event, amount_mismatch, PlatformRecord, ParsedProviderRow,
}
use settle_flow.Common.{
  ◌≤◌, ◌≡◌, ◌∷◌, ◌++◌, true, some, refl, none, map, count_if, any, [], List, All,
}
use settle_flow.Reconciliation.Matching.{
  provider_rows_of, matches, accounts_for, classify-provider_rows, classify-matches_once,
}
use settle_flow.Reconciliation.Coverage.{classify-accounts_for}
use settle_flow.Reconciliation.Exact.{is_justified, classify-is_justified}

abbrev provider_row : Text → ℤ → ParsedProviderRow
provider_row reference gross = record {
  currency = etb;
  event_type = capture_event;
  external_ref = some (text "order 1");
  fee_minor = pos 5;
  gross_minor = gross;
  merchant_code = text "m";
  net_minor = pos 95;
  occurred_at = some 10;
  provider_ref = reference;
  provider_transaction_id = text "tx " ++ reference;
  row_number = 1;
  succeeded = true;
}

abbrev record_of : Text → PlatformRecord
record_of reference = record {
  currency = etb;
  event_type = text "capture";
  external_ref = none;
  fee_minor = pos 5;
  gross_minor = pos 100;
  net_minor = pos 95;
  provider_ref = reference;
  public_ref = text "ltx_" ++ reference;
  record_type = text "ledger";
}

abbrev report : List ParsedProviderRow
report =
    provider_row (text "a") (pos 100)
    ∷ provider_row (text "a") (pos 100)
    ∷ provider_row (text "b") (pos 101)
    ∷ []

abbrev records : List PlatformRecord
records = record_of (text "a") ∷ record_of (text "b") ∷ record_of (text "c") ∷ []

report_buckets :
    map (λ r. r.bucket) (classify_reconciliation report records)
    ≡ matched_exact ∷ duplicate_provider_row ∷ amount_mismatch ∷ platform_only ∷ []
unfolding classify_reconciliation classify_provider_rows classify_row compare_rows find_platform
    unique_index event_name text_eq
report_buckets = refl

classify-provider_rows_example : provider_rows_of (classify_reconciliation report records) ≡ report
classify-provider_rows_example = classify-provider_rows report records

classify-matches_once_example :
    count_if
      (matches (consumed_key (record_of (text "a"))))
      (classify_reconciliation report records)
    ≤ 1
classify-matches_once_example =
    classify-matches_once report records (consumed_key (record_of (text "a")))

classify-accounts_for_example :
    All
      (λ row. any (accounts_for (consumed_key row)) (classify_reconciliation report records) ≡ true)
      records
classify-accounts_for_example = classify-accounts_for report records

classify-is_justified_example :
    All (λ r. is_justified r ≡ true) (classify_reconciliation report records)
classify-is_justified_example = classify-is_justified report records

-- ===== src/Reconciliation/Classifier.antt =====
-- packages/modules/reconciliation/src/reconciliation-classifier.ts, with its types of
-- reconciliation.types.ts. A Map whose keys are texts is the function that looks them up; a Set is the
-- list of its members.
use settle_flow.Common.Int.{ℤ, eqb_ℤ}
use settle_flow.Common.Text.{text_eq, text, Text}
use settle_flow.Database.Ledger.{currency_eq, Date, Currency}
use settle_flow.Common.{
  ◌∷◌, ◌||◌, ◌++◌, ℕ, some, not, none, map, if◌then◌else◌, filter, false, any, [], Option, List,
  Bool,
}

pub data EventType : Type 0 where
  adjustment_event capture_event refund_event settlement_event : EventType

pub data Bucket : Type 0 where
  amount_mismatch currency_mismatch duplicate_provider_row matched_exact : Bucket
  platform_only provider_only status_mismatch : Bucket

pub data MatchedBy : Type 0 where
  by_external_ref by_provider_ref : MatchedBy

pub record ParsedProviderRow : Type 0 where
  pub currency : Currency
  pub event_type : EventType
  pub external_ref : Option Text
  pub fee_minor : ℤ
  pub gross_minor : ℤ
  pub merchant_code : Text
  pub net_minor : ℤ
  pub occurred_at : Date
  pub provider_ref : Text
  pub provider_transaction_id : Text
  pub row_number : ℕ
  pub succeeded : Bool

pub record PlatformRecord : Type 0 where
  pub currency : Currency
  pub event_type : Text
  pub external_ref : Option Text
  pub fee_minor : ℤ
  pub gross_minor : ℤ
  pub net_minor : ℤ
  pub provider_ref : Text
  pub public_ref : Text
  pub record_type : Text

-- `ClassifiedReconciliationResult`
pub record Classified : Type 0 where
  pub bucket : Bucket
  pub currency : Currency
  pub matched_by : Option MatchedBy
  pub platform : Option PlatformRecord
  pub provider : Option ParsedProviderRow
  pub reason_code : Text

unfoldable pub event_name : EventType → Text
event_name adjustment_event = text "adjustment"
event_name capture_event = text "capture"
event_name refund_event = text "refund"
event_name settlement_event = text "settlement"

abbrev pub joined : Text → Text → Text
joined a b = a ++ (b':' ∷ b)

abbrev pub has_key : (PlatformRecord → Option Text) → Text → PlatformRecord → Bool
has_key key_for key row = elim (key_for row) [ none ↦ false | some k ↦ text_eq k key ]

-- `uniqueIndex`, looked up at a key: the row of the key, if it has one row.
unfoldable pub unique_index :
    List PlatformRecord → (PlatformRecord → Option Text) → Text → Option PlatformRecord
unique_index rows key_for key = elim (filter (has_key key_for key) rows) [
  | [] ↦ none
  | row ∷ others ↦ elim others [ [] ↦ some row | other ∷ more ↦ none ]
]

abbrev pub provider_key : PlatformRecord → Option Text
provider_key row = some (joined row.event_type row.provider_ref)

abbrev pub external_key : PlatformRecord → Option Text
external_key row = elim row.external_ref [
  | none ↦ none
  | some ref ↦ some (joined row.event_type ref)
]

abbrev pub consumed_key : PlatformRecord → Text
consumed_key row = joined row.record_type row.public_ref

-- The platform record that a provider row names, and by what.
unfoldable pub find_platform :
    List PlatformRecord → ParsedProviderRow → Option (PlatformRecord × MatchedBy)
find_platform platform_rows row =
    elim (unique_index platform_rows provider_key
      (joined (event_name row.event_type) row.provider_ref)) [
        | some found ↦ some (found, by_provider_ref)
        | none ↦ elim row.external_ref [
          | none ↦ none
          | some ref ↦
              elim (unique_index platform_rows external_key
                (joined (event_name row.event_type) ref)) [
                  | none ↦ none
                  | some found ↦ some (found, by_external_ref)
                ]
        ]
      ]

abbrev pub unmatched : ParsedProviderRow → Bucket → Text → Classified
unmatched row bucket reason_code = record {
  bucket = bucket;
  currency = row.currency;
  matched_by = none;
  platform = none;
  provider = some row;
  reason_code = reason_code;
}

-- The bucket of a matched row, with its reason.
unfoldable pub compare_rows : ParsedProviderRow → PlatformRecord → Bucket × Text
compare_rows row found =
    if not (currency_eq found.currency row.currency)
    then (currency_mismatch, text "currency_differs")
    else if not (eqb_ℤ found.gross_minor row.gross_minor)
        || not (eqb_ℤ found.fee_minor row.fee_minor)
        || not (eqb_ℤ found.net_minor row.net_minor)
    then (amount_mismatch, text "amounts_differ")
    else if not row.succeeded
    then (status_mismatch, text "provider_status_failed")
    else (matched_exact, text "exact_match")

abbrev pub matched : ParsedProviderRow → PlatformRecord → MatchedBy → Classified
matched row found by = record {
  bucket = (compare_rows row found).0;
  currency = row.currency;
  matched_by = some by;
  platform = some found;
  provider = some row;
  reason_code = (compare_rows row found).1;
}

-- One round of the first loop: the result, and the record that it consumes.
unfoldable pub classify_row :
    List PlatformRecord
    → List Text
    → List Text
    → ParsedProviderRow
    → Classified × Option PlatformRecord
classify_row platform_rows consumed transactions row =
    if any (text_eq row.provider_transaction_id) transactions
    then (unmatched row duplicate_provider_row (text "duplicate_provider_transaction_id"), none)
    else elim (find_platform platform_rows row) [
      | none ↦ (unmatched row provider_only (text "platform_record_not_found"), none)
      | some hit ↦
          if any (text_eq (consumed_key hit.0)) consumed
          then (unmatched row provider_only (text "platform_record_not_found"), none)
          else (matched row hit.0 hit.1, some hit.0)
    ]

-- `consumed.add`
abbrev pub consume : Option PlatformRecord → List Text → List Text
consume none consumed = consumed
consume (some row) consumed = consumed_key row ∷ consumed

-- The first loop: its results and the keys that are consumed after it. A duplicate transaction is in
-- the set already.
unfoldable pub classify_provider_rows :
    List PlatformRecord
    → List Text
    → List Text
    → List ParsedProviderRow
    → List Classified × List Text
classify_provider_rows platform_rows consumed transactions [] = ([], consumed)
classify_provider_rows platform_rows consumed transactions (row ∷ rows) =
    let (result, used) = classify_row platform_rows consumed transactions row in
    let (results, final) =
      classify_provider_rows platform_rows (consume used consumed)
        (row.provider_transaction_id ∷ transactions) rows in
    (result ∷ results, final)

abbrev pub platform_left : PlatformRecord → Classified
platform_left row = record {
  bucket = platform_only;
  currency = row.currency;
  matched_by = none;
  platform = some row;
  provider = none;
  reason_code = text "provider_record_not_found";
}

abbrev pub is_left : List Text → PlatformRecord → Bool
is_left consumed row = not (any (text_eq (consumed_key row)) consumed)

unfoldable pub classify_reconciliation :
    List ParsedProviderRow → List PlatformRecord → List Classified
unfolding classify_provider_rows
classify_reconciliation provider_rows platform_rows =
    let (results, consumed) = classify_provider_rows platform_rows [] [] provider_rows in
    results ++ map platform_left (filter (is_left consumed) platform_rows)

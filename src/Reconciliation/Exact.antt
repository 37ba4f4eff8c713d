-- ===== src/Reconciliation/Exact.antt =====
-- What the bucket `matched_exact` of packages/modules/reconciliation/src/reconciliation-classifier.ts says.
use settle_flow.Common.Int.{eqb_ℤ}
use settle_flow.Database.Ledger.{currency_eq}
use settle_flow.Common.Text.{Text}
use settle_flow.Reconciliation.Classifier.{
  platform_left, is_left, consume, classify_reconciliation, classify_provider_rows, unique_index,
  provider_key, matched_exact, joined, has_key, find_platform, external_key, event_name,
  compare_rows, classify_row, PlatformRecord, ParsedProviderRow, MatchedBy, Classified, Bucket,
}
use settle_flow.Common.{
  map, All-append, All, ◌≡◌, ◌∷◌, ◌||◌, ◌&&◌, true, subst, some, refl, not, none, inr, inl, filter,
  false, arith, [], Option, List, Bool-cases, Bool,
}

abbrev pub is_exact : Bucket → Bool
is_exact matched_exact = true
is_exact _ = false

-- The platform record has the key under which the provider row was looked up: by its own reference,
-- or by the external one.
abbrev pub is_named_by : ParsedProviderRow → PlatformRecord → Bool
is_named_by row found =
    has_key provider_key (joined (event_name row.event_type) row.provider_ref) found
    || elim row.external_ref [
      | none ↦ false
      | some ref ↦ has_key external_key (joined (event_name row.event_type) ref) found
    ]

abbrev pub same_figures : ParsedProviderRow → PlatformRecord → Bool
same_figures row found =
    currency_eq found.currency row.currency
    && eqb_ℤ found.gross_minor row.gross_minor
    && eqb_ℤ found.fee_minor row.fee_minor
    && eqb_ℤ found.net_minor row.net_minor

-- A result in that bucket has both rows, which name each other, with the same figures, and the
-- provider's row has succeeded; any result with both rows has rows that name each other.
unfoldable pub is_justified : Classified → Bool
unfolding event_name
is_justified r = elim r.provider [
  | none ↦ not (is_exact r.bucket)
  | some row ↦ elim r.platform [
    | none ↦ not (is_exact r.bucket)
    | some found ↦
        is_named_by row found
        && (not (is_exact r.bucket) || (same_figures row found && row.succeeded))
  ]
]

filter-head :
    (p : PlatformRecord → Bool) (xs : List PlatformRecord) (x : PlatformRecord)
    (ys : List PlatformRecord)
    → filter p xs ≡ x ∷ ys
    → p x ≡ true
filter-head p [] x ys h = absurd (ground arith)
filter-head p (z ∷ xs) x ys h = elim (Bool-cases (p z)) [
  | inl kept ↦ let same : z ≡ x = ground (arith) in subst (λ y. p y ≡ true) same kept
  | inr dropped ↦ filter-head p xs x ys (ground arith)
]

unique_index-key :
    (rows : List PlatformRecord) (key_for : PlatformRecord → Option Text) (key : Text)
    (found : PlatformRecord)
    → unique_index rows key_for key ≡ some found
    → has_key key_for key found ≡ true
unfolding unique_index
unique_index-key rows key_for key found h = go (filter (has_key key_for key) rows) refl
  where
    go :
        (hits : List PlatformRecord)
        → filter (has_key key_for key) rows ≡ hits
        → has_key key_for key found ≡ true
    go [] seen = absurd (ground arith)
    go (x ∷ []) seen =
        let same : x ≡ found = ground arith in
        subst (λ y. has_key key_for key y ≡ true) same
          (filter-head (has_key key_for key) rows x [] seen)
    go (x ∷ y ∷ more) seen = absurd (ground arith)

find_platform-named :
    (platform_rows : List PlatformRecord) (row : ParsedProviderRow) (found : PlatformRecord)
    (by : MatchedBy)
    → find_platform platform_rows row ≡ some (found, by)
    → is_named_by row found ≡ true
unfolding find_platform
find_platform-named platform_rows row found by h =
    go
      (unique_index platform_rows provider_key
        (joined (event_name row.event_type) row.provider_ref))
      refl
  where
    third :
        (ref : Text) (hit : Option PlatformRecord)
        → row.external_ref ≡ some ref
        → unique_index platform_rows provider_key
            (joined (event_name row.event_type) row.provider_ref)
          ≡ none
        → unique_index platform_rows external_key (joined (event_name row.event_type) ref) ≡ hit
        → is_named_by row found ≡ true
    third ref none there missing seen = absurd (ground arith)
    third ref (some x) there missing seen =
        let same : x ≡ found = ground arith in
        let named =
          unique_index-key platform_rows external_key (joined (event_name row.event_type) ref) x
            seen in
        ground (
          arith,
          subst (λ y. has_key external_key (joined (event_name row.event_type) ref) y ≡ true) same
              named,
        )

    external :
        (ref : Option Text)
        → row.external_ref ≡ ref
        → unique_index platform_rows provider_key
            (joined (event_name row.event_type) row.provider_ref)
          ≡ none
        → is_named_by row found ≡ true
    external none there missing = absurd (ground arith)
    external (some ref) there missing =
        third ref (unique_index platform_rows external_key (joined (event_name row.event_type) ref))
          there missing refl

    go :
        (hit : Option PlatformRecord)
        → unique_index platform_rows provider_key
            (joined (event_name row.event_type) row.provider_ref)
          ≡ hit
        → is_named_by row found ≡ true
    go (some x) seen =
        let same : x ≡ found = ground arith in
        let named =
          unique_index-key platform_rows provider_key
            (joined (event_name row.event_type) row.provider_ref) x seen in
        ground (
          arith,
          subst
              (λ y.
                has_key provider_key (joined (event_name row.event_type) row.provider_ref) y ≡ true)
              same named,
        )
    go none seen = external row.external_ref refl seen

classify_row-is_justified :
    (platform_rows : List PlatformRecord) (consumed transactions : List Text)
    (row : ParsedProviderRow)
    → is_justified (classify_row platform_rows consumed transactions row).0 ≡ true
unfolding classify_row compare_rows is_justified
classify_row-is_justified platform_rows consumed transactions row =
    go (find_platform platform_rows row) refl
  where
    go :
        (found : Option (PlatformRecord × MatchedBy))
        → find_platform platform_rows row ≡ found
        → is_justified (classify_row platform_rows consumed transactions row).0 ≡ true
    go none seen = ground arith
    go (some (q, by)) seen = ground (arith, find_platform-named platform_rows row q by seen)

rows-are_justified :
    (platform_rows : List PlatformRecord) (consumed transactions : List Text)
    (rows : List ParsedProviderRow)
    → All
        (λ r. is_justified r ≡ true)
        (classify_provider_rows platform_rows consumed transactions rows).0
unfolding classify_provider_rows
rows-are_justified platform_rows consumed transactions [] = tt
rows-are_justified platform_rows consumed transactions (row ∷ rows) = (
  classify_row-is_justified platform_rows consumed transactions row,
  rows-are_justified platform_rows
      (consume (classify_row platform_rows consumed transactions row).1 consumed)
      (row.provider_transaction_id ∷ transactions) rows,
)

left-is_justified :
    (rows : List PlatformRecord) → All (λ r. is_justified r ≡ true) (map platform_left rows)
unfolding is_justified
left-is_justified [] = tt
left-is_justified (row ∷ rows) = (refl, left-is_justified rows)

-- Every result is justified: one that is called an exact match has a row of the provider and a record
-- of the platform with the same currency and amounts, and the row has succeeded; and whenever a result
-- has both, the record has the key under which the row looks it up, by its own reference or by the
-- external one.
pub classify-is_justified :
    (provider_rows : List ParsedProviderRow) (platform_rows : List PlatformRecord)
    → All (λ r. is_justified r ≡ true) (classify_reconciliation provider_rows platform_rows)
unfolding classify_reconciliation
classify-is_justified provider_rows platform_rows =
    All-append (λ r. is_justified r ≡ true)
      (classify_provider_rows platform_rows [] [] provider_rows).0
      (map platform_left (
        filter (is_left (classify_provider_rows platform_rows [] [] provider_rows).1)
          platform_rows))
      (rows-are_justified platform_rows [] [] provider_rows)
      (left-is_justified (
        filter (is_left (classify_provider_rows platform_rows [] [] provider_rows).1)
          platform_rows))

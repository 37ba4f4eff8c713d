-- ===== src/Reconciliation/Matching.antt =====
-- What the results of packages/modules/reconciliation/src/reconciliation-classifier.ts account for.
use mathlib.Core.List.{append-nil}
use settle_flow.Common.Text.{text_eq_comm, eq_of_text_eq, text_eq, Text}
use settle_flow.Reconciliation.Classifier.{
  platform_left, is_left, consumed_key, consume, classify_row, classify_reconciliation,
  classify_provider_rows, PlatformRecord, ParsedProviderRow, Classified,
}
use settle_flow.Common.{
  subst, inr, inl, count_if-append, Bool-cases, ◌≤◌, ◌≡◌, ◌∷◌, ◌∙◌, ◌++◌, ◌&&◌, true, some, refl,
  none, map, is_some, filter, false, count_if, arith, ap, any, [], Option, List, Bool,
}

-- The provider rows that results are about, in their order.
unfoldable pub provider_rows_of : List Classified → List ParsedProviderRow
provider_rows_of [] = []
provider_rows_of (r ∷ rs) = elim r.provider [
  | none ↦ provider_rows_of rs
  | some row ↦ row ∷ provider_rows_of rs
]

-- The result names the platform record with this key.
abbrev pub accounts_for : Text → Classified → Bool
accounts_for key r = elim r.platform [ none ↦ false | some row ↦ text_eq (consumed_key row) key ]

-- The result matches a provider row with the platform record with this key.
abbrev pub matches : Text → Classified → Bool
matches key r = is_some r.provider && accounts_for key r

classify_row-provider :
    (platform_rows : List PlatformRecord) (consumed transactions : List Text)
    (row : ParsedProviderRow)
    → (classify_row platform_rows consumed transactions row).0.provider ≡ some row
unfolding classify_row
classify_row-provider platform_rows consumed transactions row = ground arith

provider_rows_of-classify :
    (platform_rows : List PlatformRecord) (consumed transactions : List Text)
    (rows : List ParsedProviderRow)
    → provider_rows_of (classify_provider_rows platform_rows consumed transactions rows).0 ≡ rows
unfolding provider_rows_of classify_provider_rows
provider_rows_of-classify platform_rows consumed transactions [] = refl
provider_rows_of-classify platform_rows consumed transactions (row ∷ rows) = ground (
  arith,
  classify_row-provider platform_rows consumed transactions row,
  provider_rows_of-classify platform_rows
      (consume (classify_row platform_rows consumed transactions row).1 consumed)
      (row.provider_transaction_id ∷ transactions) rows,
)

provider_rows_of-left :
    (rows : List PlatformRecord) → provider_rows_of (map platform_left rows) ≡ []
unfolding provider_rows_of
provider_rows_of-left [] = refl
provider_rows_of-left (row ∷ rows) = provider_rows_of-left rows

provider_rows_of-append :
    (xs ys : List Classified)
    → provider_rows_of (xs ++ ys) ≡ provider_rows_of xs ++ provider_rows_of ys
unfolding provider_rows_of
provider_rows_of-append [] ys = refl
provider_rows_of-append (x ∷ xs) ys = ground (arith, provider_rows_of-append xs ys)

-- Every row of the provider has one result, and the results keep the order of the rows.
pub classify-provider_rows :
    (provider_rows : List ParsedProviderRow) (platform_rows : List PlatformRecord)
    → provider_rows_of (classify_reconciliation provider_rows platform_rows) ≡ provider_rows
unfolding classify_reconciliation
classify-provider_rows provider_rows platform_rows =
    provider_rows_of-append (classify_provider_rows platform_rows [] [] provider_rows).0 (
      map platform_left (
        filter (is_left (classify_provider_rows platform_rows [] [] provider_rows).1)
          platform_rows))
    ∙ ap
        (λ rest.
          provider_rows_of (classify_provider_rows platform_rows [] [] provider_rows).0 ++ rest)
        (provider_rows_of-left (
          filter (is_left (classify_provider_rows platform_rows [] [] provider_rows).1)
            platform_rows))
    ∙ append-nil _
    ∙ provider_rows_of-classify platform_rows [] [] provider_rows

-- A round matches the record that it consumes, which was not consumed before.
classify_row-matches :
    (platform_rows : List PlatformRecord) (consumed transactions : List Text)
    (row : ParsedProviderRow) (key : Text)
    → matches key (classify_row platform_rows consumed transactions row).0
      ≡ elim (classify_row platform_rows consumed transactions row).1 [
        | none ↦ false
        | some q ↦ text_eq (consumed_key q) key
      ]
unfolding classify_row
classify_row-matches platform_rows consumed transactions row key = ground arith

classify_row-fresh :
    (platform_rows : List PlatformRecord) (consumed transactions : List Text)
    (row : ParsedProviderRow) (q : PlatformRecord)
    → (classify_row platform_rows consumed transactions row).1 ≡ some q
    → any (text_eq (consumed_key q)) consumed ≡ false
unfolding classify_row
classify_row-fresh platform_rows consumed transactions row q used = ground arith

matches_once :
    (platform_rows : List PlatformRecord) (key : Text) (consumed transactions : List Text)
    (rows : List ParsedProviderRow)
    → let n =
        count_if
          (matches key)
          (classify_provider_rows platform_rows consumed transactions rows).0 in
      (any (text_eq key) consumed ≡ true → n ≡ 0) × (n ≤ 1)
unfolding classify_provider_rows
matches_once platform_rows key consumed transactions [] = (λ h. refl, omega arith)
matches_once platform_rows key consumed transactions (row ∷ rows) =
    go (classify_row platform_rows consumed transactions row).1 refl (
      matches_once platform_rows key
        (consume (classify_row platform_rows consumed transactions row).1 consumed)
        (row.provider_transaction_id ∷ transactions) rows)
  where
    go :
        (used : Option PlatformRecord)
        → (classify_row platform_rows consumed transactions row).1 ≡ used
        → (let n =
              count_if
                (matches key)
                (classify_provider_rows platform_rows
                  (consume (classify_row platform_rows consumed transactions row).1 consumed)
                  (row.provider_transaction_id ∷ transactions)
                  rows).0 in
            (any
                  (text_eq key)
                  (consume (classify_row platform_rows consumed transactions row).1 consumed)
                ≡ true
              → n ≡ 0)
            × (n ≤ 1))
        → let n =
            count_if
              (matches key)
              (classify_provider_rows platform_rows consumed transactions (row ∷ rows)).0 in
          (any (text_eq key) consumed ≡ true → n ≡ 0) × (n ≤ 1)
    go none seen ih =
        let miss : matches key (classify_row platform_rows consumed transactions row).0 ≡ false =
          ground (arith, classify_row-matches platform_rows consumed transactions row key) in
        (λ h. rw miss (ih.0 (rw seen h)), rw miss ih.1)
    go (some q) seen ih = elim (Bool-cases (text_eq (consumed_key q) key)) [
      | inl same ↦
          let hit : matches key (classify_row platform_rows consumed transactions row).0 ≡ true =
            ground (arith, classify_row-matches platform_rows consumed transactions row key) in
          let zero_left = ih.0 (rw seen (ground (arith, text_eq_comm key (consumed_key q)))) in
          (
            λ h. absurd (
                let fresh : any (text_eq key) consumed ≡ false =
                  subst (λ k. any (text_eq k) consumed ≡ false)
                    (eq_of_text_eq (consumed_key q) key same)
                    (classify_row-fresh platform_rows consumed transactions row q seen) in
                ground arith),
            rw (hit, zero_left) (omega arith),
          )
      | inr other ↦
          let miss : matches key (classify_row platform_rows consumed transactions row).0 ≡ false =
            ground (arith, classify_row-matches platform_rows consumed transactions row key) in
          (λ h. rw miss (ih.0 (rw seen (ground arith))), rw miss ih.1)
    ]

matches-left :
    (key : Text) (rows : List PlatformRecord) → count_if (matches key) (map platform_left rows) ≡ 0
matches-left key [] = refl
matches-left key (row ∷ rows) = matches-left key rows

-- No platform record is matched with two rows of the provider: whatever the key of a record, at most
-- one result matches a provider row with a record of that key.
pub classify-matches_once :
    (provider_rows : List ParsedProviderRow) (platform_rows : List PlatformRecord) (key : Text)
    → count_if (matches key) (classify_reconciliation provider_rows platform_rows) ≤ 1
unfolding classify_reconciliation
classify-matches_once provider_rows platform_rows key =
    rw
      (
        count_if-append (matches key) (classify_provider_rows platform_rows [] [] provider_rows).0 (
            map platform_left (
              filter (is_left (classify_provider_rows platform_rows [] [] provider_rows).1)
                platform_rows)),
        matches-left key (
            filter (is_left (classify_provider_rows platform_rows [] [] provider_rows).1)
              platform_rows),
      )
      (let once = (matches_once platform_rows key [] [] provider_rows).1 in omega arith)

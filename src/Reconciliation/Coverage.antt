-- ===== src/Reconciliation/Coverage.antt =====
-- No record of the platform is lost by packages/modules/reconciliation/src/reconciliation-classifier.ts.
use settle_flow.Common.Text.{text_eq_refl, text_eq_comm, text_eq, Text}
use settle_flow.Reconciliation.Classifier.{
  platform_left, is_left, consumed_key, consume, classify_row, classify_reconciliation,
  classify_provider_rows, PlatformRecord, ParsedProviderRow, Classified,
}
use settle_flow.Common.{
  ◌≡◌, ◌∷◌, ◌∙◌, ◌||◌, ◌++◌, true, some, refl, none, map, inr, inl, filter, false, arith, any, [],
  Option, List, Bool-cases, Bool, All-map, All,
}
use settle_flow.Reconciliation.Matching.{accounts_for}

classify_row-accounts :
    (platform_rows : List PlatformRecord) (consumed transactions : List Text)
    (row : ParsedProviderRow) (key : Text)
    → accounts_for key (classify_row platform_rows consumed transactions row).0
      ≡ elim (classify_row platform_rows consumed transactions row).1 [
        | none ↦ false
        | some q ↦ text_eq (consumed_key q) key
      ]
unfolding classify_row
classify_row-accounts platform_rows consumed transactions row key = ground arith

classify_row-consumes :
    (platform_rows : List PlatformRecord) (consumed transactions : List Text)
    (row : ParsedProviderRow) (key : Text)
    → any (text_eq key) consumed ≡ false
    → accounts_for key (classify_row platform_rows consumed transactions row).0 ≡ false
    → any (text_eq key) (consume (classify_row platform_rows consumed transactions row).1 consumed)
      ≡ false
classify_row-consumes platform_rows consumed transactions row key before not_named =
    go (classify_row platform_rows consumed transactions row).1 refl
  where
    go :
        (used : Option PlatformRecord)
        → (classify_row platform_rows consumed transactions row).1 ≡ used
        → any
            (text_eq key)
            (consume (classify_row platform_rows consumed transactions row).1 consumed)
          ≡ false
    go none seen = rw seen before
    go (some q) seen =
        let apart : text_eq (consumed_key q) key ≡ false =
          ground (arith, classify_row-accounts platform_rows consumed transactions row key) in
        rw seen (ground (arith, text_eq_comm key (consumed_key q)))

-- A key that is consumed after the loop was consumed before it or is that of a match.
consumed-accounted :
    (platform_rows : List PlatformRecord) (key : Text) (consumed transactions : List Text)
    (rows : List ParsedProviderRow)
    → any (text_eq key) consumed ≡ false
    → any (accounts_for key) (classify_provider_rows platform_rows consumed transactions rows).0
      ≡ false
    → any (text_eq key) (classify_provider_rows platform_rows consumed transactions rows).1 ≡ false
unfolding classify_provider_rows
consumed-accounted platform_rows key consumed transactions [] before none_named = before
consumed-accounted platform_rows key consumed transactions (row ∷ rows) before none_named =
    consumed-accounted platform_rows key
      (consume (classify_row platform_rows consumed transactions row).1 consumed)
      (row.provider_transaction_id ∷ transactions) rows
      (classify_row-consumes platform_rows consumed transactions row key before (ground arith))
      (ground arith)

left-accounted :
    (final : List Text) (rows : List PlatformRecord)
    → All
        (λ row.
          is_left final row ≡ true
          → any (accounts_for (consumed_key row)) (map platform_left (filter (is_left final) rows))
            ≡ true)
        rows
left-accounted final [] = tt
left-accounted final (x ∷ rows) = (
  λ left. rw left (ground (arith, text_eq_refl (consumed_key x))),
  All-map
      (λ row.
        is_left final row ≡ true
        → any (accounts_for (consumed_key row)) (map platform_left (filter (is_left final) rows))
          ≡ true)
      _ rows (λ row named left. weaken row (named left)) (left-accounted final rows),
)
  where
    weaken :
        (row : PlatformRecord)
        → any (accounts_for (consumed_key row)) (map platform_left (filter (is_left final) rows))
          ≡ true
        → any
            (accounts_for (consumed_key row))
            (map platform_left (filter (is_left final) (x ∷ rows)))
          ≡ true
    weaken row named = elim (Bool-cases (is_left final x)) [
      | inl kept ↦ rw kept (ground arith)
      | inr dropped ↦ rw dropped named
    ]

any-append :
    (p : Classified → Bool) (xs ys : List Classified) → any p (xs ++ ys) ≡ (any p xs || any p ys)
any-append p [] ys = refl
any-append p (x ∷ xs) ys = ground (arith, any-append p xs ys)

-- No record of the platform is lost: for each there is a result that names a record with its key,
-- matched with a row of the provider or left over.
pub classify-accounts_for :
    (provider_rows : List ParsedProviderRow) (platform_rows : List PlatformRecord)
    → All
        (λ row.
          any
            (accounts_for (consumed_key row))
            (classify_reconciliation provider_rows platform_rows)
          ≡ true)
        platform_rows
unfolding classify_reconciliation
classify-accounts_for provider_rows platform_rows =
    All-map
      (λ row.
        is_left final row ≡ true
        → any (accounts_for (consumed_key row))
            (map platform_left (filter (is_left final) platform_rows))
          ≡ true)
      _ platform_rows each (left-accounted final platform_rows)
  where
    results : List Classified
    results = (classify_provider_rows platform_rows [] [] provider_rows).0

    final : List Text
    final = (classify_provider_rows platform_rows [] [] provider_rows).1

    each :
        (row : PlatformRecord)
        → (is_left final row ≡ true
            → any
                (accounts_for (consumed_key row))
                (map platform_left (filter (is_left final) platform_rows))
              ≡ true)
        → any
            (accounts_for (consumed_key row))
            (results ++ map platform_left (filter (is_left final) platform_rows))
          ≡ true
    each row named =
        any-append (accounts_for (consumed_key row)) results
          (map platform_left (filter (is_left final) platform_rows))
        ∙ elim (Bool-cases (any (accounts_for (consumed_key row)) results)) [
          | inl hit ↦ rw hit refl
          | inr miss ↦
              let gone =
                consumed-accounted platform_rows (consumed_key row) [] [] provider_rows refl miss in
              rw (miss, named (ground (arith, gone))) refl
        ]

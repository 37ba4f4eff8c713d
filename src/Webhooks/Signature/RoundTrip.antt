-- ===== src/Webhooks/Signature/RoundTrip.antt =====
-- What buildWebhookRequestHeaders signs, verifyWebhookSignature accepts
-- (webhook-delivery-signature.ts).
use settle_flow.Common.Action.{ok}
use settle_flow.Webhooks.Signature.Decimals.{value_from-decimal, decimal-is_decimal}
use settle_flow.Webhooks.Signature.{
  received, is_signing_secret, headers_of, is_out_of_time, build_webhook_request_headers,
  verify_webhook_signature, is_bad_signing_input, WebhookHeaders, signature_header, signature_input,
  SigningInput, is_entry_valid, is_signature, is_base64url,
}
use settle_flow.Common.Patterns.{is_public_id, replicate, match_classes, is_digit, is_alphanumeric}
use settle_flow.Common.Text.{text_eq_refl, text, split, split_part, Text}
use settle_flow.Common.{
  leb, ◌||◌, Bool, Bool-cases, or_else, ◌⊎◌, ◌<◌, subst, some, none, inr, inl, Option, any, ◌==◌,
  ◌≡◌, ◌∷◌, ◌++◌, ℕ, zero, true, suc, refl, not, false, arith, all, [], List,
}

split-entry : (mark : ℕ) (a : Text) → all (λ c. not (c == mark)) a ≡ true → split mark a ≡ a ∷ []
unfolding split
split-entry mark [] free = refl
split-entry mark (c ∷ a) free =
    let rest : split mark a ≡ a ∷ [] = split-entry mark a (ground arith) in
    let other : (c == mark) ≡ false = ground arith in rw (rest, other) refl

split_at_mark : (mark : ℕ) (xs : List Text) → split_part mark mark xs ≡ [] ∷ xs
split_at_mark mark [] = ground arith
split_at_mark mark (x ∷ xs) = ground arith

split-entries :
    (mark : ℕ) (a b : Text)
    → all (λ c. not (c == mark)) a ≡ true
    → split mark (a ++ (mark ∷ b)) ≡ a ∷ split mark b
unfolding split
split-entries mark [] b free = split_at_mark mark (split mark b)
split-entries mark (c ∷ a) b free =
    let rest : split mark (a ++ (mark ∷ b)) ≡ a ∷ split mark b =
      split-entries mark a b (ground arith) in
    let other : (c == mark) ≡ false = ground arith in rw (rest, other) refl

base64url-unmarked :
    (n : ℕ) (t : Text)
    → match_classes (replicate n is_base64url) t ≡ true
    → all (λ c. not (c == b';')) t ≡ true
unfolding match_classes replicate is_base64url is_alphanumeric is_digit
base64url-unmarked zero [] good = refl
base64url-unmarked zero (c ∷ t) good = absurd (ground arith)
base64url-unmarked (suc n) [] good = absurd (ground arith)
base64url-unmarked (suc n) (c ∷ t) good = ground (arith, base64url-unmarked n t)

above_zero : (n : ℕ) → leb n 0 ≡ false → 0 < n
above_zero n above = ground arith

good_parts :
    (a b c d e : Bool) → (not a || not b || c || not d || e) ≡ false → (a ≡ true) × (c ≡ false)
good_parts a b c d e good = (ground arith, ground arith)

module _ (sign : Text → Text → Text) (decode : Text → List ℕ)
    (digest_form : (secret bytes : Text)
      → match_classes (replicate 43 is_base64url) (sign secret bytes) ≡ true) where
  entry_valid :
      (secret bytes : Text)
      → is_entry_valid sign decode (sign secret bytes) (text "v1," ++ sign secret bytes) ≡ true
  unfolding is_signature match_classes
  entry_valid secret bytes =
      rw (digest_form secret bytes, text_eq_refl (decode (sign secret bytes))) refl

  entry_unmarked :
      (secret bytes : Text) → all (λ c. not (c == b';')) (text "v1," ++ sign secret bytes) ≡ true
  entry_unmarked secret bytes = base64url-unmarked 43 (sign secret bytes) (digest_form secret bytes)

  -- A signature with the own_secret secret, and one with the previous, stand in the header.
  current_stands :
      (own_secret bytes : Text) (previous : Option Text)
      → any (is_entry_valid sign decode (sign own_secret bytes)) (
          split b';' (elim previous [
            | none ↦ text "v1," ++ sign own_secret bytes
            | some p ↦
                text "v1," ++ sign own_secret bytes ++ (text ";" ++ (text "v1," ++ sign p bytes))
          ]))
        ≡ true
  current_stands own_secret bytes none =
      rw
        (
          split-entry b';' (text "v1," ++ sign own_secret bytes) (entry_unmarked own_secret bytes),
          entry_valid own_secret bytes,
        )
        refl
  current_stands own_secret bytes (some p) =
      rw
        (
          split-entries b';' (text "v1," ++ sign own_secret bytes) (text "v1," ++ sign p bytes)
              (entry_unmarked own_secret bytes),
          entry_valid own_secret bytes,
        )
        refl

  previous_stands :
      (own_secret bytes p : Text)
      → any (is_entry_valid sign decode (sign p bytes)) (
          split b';'
            (text "v1," ++ sign own_secret bytes ++ (text ";" ++ (text "v1," ++ sign p bytes))))
        ≡ true
  previous_stands own_secret bytes p =
      rw
        (
          split-entries b';' (text "v1," ++ sign own_secret bytes) (text "v1," ++ sign p bytes)
              (entry_unmarked own_secret bytes),
          split-entry b';' (text "v1," ++ sign p bytes) (entry_unmarked p bytes),
          entry_valid p bytes,
        )
        (ground arith)

  secret_stands :
      (input : SigningInput) (secret bytes : Text)
      → bytes ≡ signature_input input.timestamp input.delivery_id input.body
      → (secret ≡ input.current) ⊎ (input.previous ≡ some secret)
      → any
          (is_entry_valid sign decode (sign secret bytes))
          (split b';' (signature_header sign input))
        ≡ true
  unfolding signature_header
  secret_stands input secret bytes same (inl own) =
      rw (own, same)
        (current_stands input.current (signature_input input.timestamp input.delivery_id input.body)
          input.previous)
  secret_stands input secret bytes same (inr other) =
      rw (other, same)
        (previous_stands input.current
          (signature_input input.timestamp input.delivery_id input.body) secret)

  good-verifies :
      (input : SigningInput) (now : ℕ) (secret : Text) (tolerance : Option ℕ)
      → is_bad_signing_input input ≡ false
      → is_out_of_time input.timestamp now (or_else tolerance 300) ≡ false
      → (secret ≡ input.current) ⊎ (input.previous ≡ some secret)
      → verify_webhook_signature sign decode
          (received (headers_of sign input) input.body now secret tolerance)
        ≡ true
  unfolding verify_webhook_signature is_bad_signing_input
  good-verifies input now secret tolerance good in_time holds =
      let parts =
        good_parts (is_public_id (text "whd_") input.delivery_id)
          (is_public_id (text "evt_") input.event_id) (leb input.timestamp 0)
          (is_signing_secret input.current)
          (elim (input.previous) [ none ↦ false | some p ↦ not (is_signing_secret p) ]) good in
      let positive : 0 < input.timestamp = above_zero input.timestamp parts.1 in
      rw
        (
          decimal-is_decimal input.timestamp positive,
          parts.0,
          value_from-decimal input.timestamp,
          in_time,
        )
        (secret_stands input secret _ refl holds)

  -- Where the digests have their form, a receiver that holds the own_secret secret or the previous one
  -- accepts the headers that are built for a delivery, at any time within its tolerance of the
  -- timestamp, also where both secrets have signed.
  pub signed-verifies :
      (input : SigningInput) (h : WebhookHeaders) (now : ℕ) (secret : Text) (tolerance : Option ℕ)
      → build_webhook_request_headers sign input ≡ ok h
      → is_out_of_time input.timestamp now (or_else tolerance 300) ≡ false
      → (secret ≡ input.current) ⊎ (input.previous ≡ some secret)
      → verify_webhook_signature sign decode (received h input.body now secret tolerance) ≡ true
  unfolding build_webhook_request_headers
  signed-verifies input h now secret tolerance built in_time holds =
      elim (Bool-cases (is_bad_signing_input input)) [
        | inl bad ↦ absurd (ground (arith, built, bad))
        | inr good ↦
            let same : headers_of sign input ≡ h = ground (arith, built, good) in
            subst
              (λ k.
                verify_webhook_signature sign decode (received k input.body now secret tolerance)
                ≡ true)
              same (good-verifies input now secret tolerance good in_time holds)
      ]

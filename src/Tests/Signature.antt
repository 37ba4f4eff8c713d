-- ===== src/Tests/Signature.antt =====
-- A signature with the current and the previous secret, checked by a receiver that holds the previous.
use settle_flow.Common.Patterns.{
  match_classes, is_public_id, is_digit, is_crockford, is_alphanumeric, replicate,
}
use settle_flow.Tests.Data.{ulid}
use settle_flow.Webhooks.Signature.{received}
use settle_flow.Webhooks.Signature.RoundTrip.{signed-verifies}
use settle_flow.Common.Text.{text_eq, text, Text}
use settle_flow.Webhooks.Signature.{
  build_webhook_request_headers, is_signing_secret, is_base64url, is_bad_signing_input, headers_of,
  verify_webhook_signature, SigningInput,
}
use settle_flow.Common.{
  Bool-cases, if◌then◌else◌, inl, ◌≡◌, ◌++◌, ℕ, true, some, refl, none, inr, List,
}

abbrev first_secret : Text
first_secret = text "whsec_" ++ replicate 43 b'a'

abbrev sign : Text → Text → Text
sign secret bytes = replicate 43 (if text_eq secret first_secret then b'A' else b'B')

abbrev decode : Text → List ℕ
decode digest = digest

abbrev input : SigningInput
input = record {
  body = text "{}";
  current = first_secret;
  delivery_id = text "whd_" ++ ulid;
  event_id = text "evt_" ++ ulid;
  event_type = text "payment.created.v1";
  previous = some (text "whsec_" ++ replicate 43 b'b');
  timestamp = 1234;
}

digests :
    (secret bytes : Text) → match_classes (replicate 43 is_base64url) (sign secret bytes) ≡ true
unfolding match_classes replicate is_base64url is_alphanumeric is_digit
digests secret bytes = elim (Bool-cases (text_eq secret first_secret)) [
  | inl own ↦ rw own refl
  | inr other ↦ rw other refl
]

signed-verifies_example :
    verify_webhook_signature sign decode
      (received (headers_of sign input) (text "{}") 1300 (text "whsec_" ++ replicate 43 b'b') none)
    ≡ true
unfolding match_classes replicate is_base64url is_alphanumeric is_digit is_signing_secret
    is_public_id is_crockford build_webhook_request_headers is_bad_signing_input
signed-verifies_example =
    signed-verifies sign decode digests input (headers_of sign input) 1300
      (text "whsec_" ++ replicate 43 b'b') none refl refl (inr refl)

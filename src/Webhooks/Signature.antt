-- ===== src/Webhooks/Signature.antt =====
-- packages/modules/webhooks/src/webhook-delivery-signature.ts. The HMAC with its encoding in base64url, and
-- the decoding, are parameters.
use settle_flow.Common.Errors.{unclassified}
use settle_flow.Common.Patterns.{
  replicate, match_classes, is_public_id, is_digit, is_alphanumeric, between,
}
use settle_flow.Common.Text.{text_eq, text, split, Text}
use settle_flow.Common.Action.{ok, err, Result}
use settle_flow.Common.{
  or_else, if◌then◌else◌, ◌==◌, leb, ltb, ◌∷◌, ◌||◌, ◌/◌, ◌-◌, ◌+◌, ◌++◌, ◌*◌, ◌&&◌, ◌%◌, ℕ, zero,
  suc, some, not, none, map, length, false, any, all, [], Option, List, Bool,
}
pub mod Decimals
pub mod RoundTrip

-- `[A-Za-z0-9_-]`
unfoldable pub is_base64url : ℕ → Bool
unfolding is_alphanumeric
is_base64url c = is_alphanumeric c || c == b'_' || c == b'-'

-- `/^whsec_[A-Za-z0-9_-]{43}$/u`
unfoldable pub is_signing_secret : Text → Bool
unfolding match_classes replicate is_base64url
is_signing_secret = match_classes (map ◌==◌ (text "whsec_") ++ replicate 43 is_base64url)

-- `SIGNATURE_PATTERN` and its group
unfoldable pub is_signature : Text → Bool
unfolding match_classes replicate is_base64url
is_signature = match_classes (map ◌==◌ (text "v1,") ++ replicate 43 is_base64url)

abbrev pub digest_of : Text → Text
digest_of (v ∷ one ∷ comma ∷ digest) = digest
digest_of _ = []

-- `String` of a natural number: the digits from the last on, in front of those that follow
unfoldable pub digits_from : ℕ → ℕ → Text → Text
digits_from zero n rest = rest
digits_from (suc fuel) n rest =
    let more = digits_from fuel (n / 10) ((b'0' + n % 10) ∷ rest) in
    if n / 10 == 0 then (b'0' + n % 10) ∷ rest else more

-- Each division makes the number smaller, so that it bounds the number of digits.
unfoldable pub decimal : ℕ → Text
unfolding digits_from
decimal n = digits_from (n + 1) n []

-- `BigInt` of a string of digits
unfoldable pub value_from : ℕ → Text → ℕ
value_from v [] = v
value_from v (c ∷ cs) = value_from (v * 10 + (c - b'0')) cs

-- `/^[1-9][0-9]*$/u`
unfoldable pub is_decimal : Text → Bool
unfolding is_digit
is_decimal [] = false
is_decimal (c ∷ cs) = between b'1' b'9' c && all is_digit cs

-- `BuildWebhookRequestHeadersInput`
pub record SigningInput : Type 0 where
  pub body : Text
  pub current : Text
  pub delivery_id : Text
  pub event_id : Text
  pub event_type : Text
  pub previous : Option Text
  pub timestamp : ℕ

pub record WebhookHeaders : Type 0 where
  pub content_length : Text
  pub content_type : Text
  pub event_id : Text
  pub event_schema_version : Text
  pub event_type : Text
  pub signature : Text
  pub timestamp : Text
  pub webhook_id : Text
  pub user_agent : Text

-- `signatureInput`
unfoldable pub signature_input : ℕ → Text → Text → Text
unfolding decimal
signature_input timestamp delivery_id body =
    decimal timestamp ++ text "." ++ delivery_id ++ text "." ++ body

-- `assertSigningInput`
unfoldable pub is_bad_signing_input : SigningInput → Bool
unfolding is_signing_secret is_public_id
is_bad_signing_input input =
    not (is_public_id (text "whd_") input.delivery_id)
    || not (is_public_id (text "evt_") input.event_id)
    || leb input.timestamp 0
    || not (is_signing_secret input.current)
    || elim (input.previous) [ none ↦ false | some p ↦ not (is_signing_secret p) ]

-- The arguments of `verifyWebhookSignature`
pub record Verification : Type 0 where
  pub body : Text
  pub delivery_id : Text
  pub now_epoch_seconds : ℕ
  pub secret : Text
  pub signature_header : Text
  pub timestamp_header : Text
  pub tolerance_seconds : Option ℕ

-- What a receiver that holds a secret checks, at a time, of the headers and the body that reach it.
abbrev pub received : WebhookHeaders → Text → ℕ → Text → Option ℕ → Verification
received h body now secret tolerance = record {
  body = body;
  delivery_id = h.webhook_id;
  now_epoch_seconds = now;
  secret = secret;
  signature_header = h.signature;
  timestamp_header = h.timestamp;
  tolerance_seconds = tolerance;
}

-- A time outside the tolerance; where the program subtracts it from now, it is added to the other side.
abbrev pub is_out_of_time : ℕ → ℕ → ℕ → Bool
is_out_of_time timestamp now tolerance =
    ltb (now + tolerance) timestamp || ltb (timestamp + tolerance) now

module _ (sign : Text → Text → Text) where
  -- `signatures.join(';')`
  unfoldable pub signature_header : SigningInput → Text
  unfolding signature_input
  signature_header input =
      let bytes = signature_input input.timestamp input.delivery_id input.body in
      let own = text "v1," ++ sign input.current bytes in
      elim (input.previous) [
        | none ↦ own
        | some p ↦ own ++ (text ";" ++ (text "v1," ++ sign p bytes))
      ]

  abbrev pub headers_of : SigningInput → WebhookHeaders
  headers_of input = record {
    content_length = decimal (length input.body);
    content_type = text "application/json";
    event_id = input.event_id;
    event_schema_version = text "1";
    event_type = input.event_type;
    signature = signature_header input;
    timestamp = decimal input.timestamp;
    webhook_id = input.delivery_id;
    user_agent = text "SettleFlow-Webhooks/1.0";
  }

  unfoldable pub build_webhook_request_headers : SigningInput → Result WebhookHeaders
  unfolding signature_header is_bad_signing_input
  build_webhook_request_headers input =
      if is_bad_signing_input input then err unclassified else ok (headers_of input)

module _ (sign : Text → Text → Text) (decode : Text → List ℕ) where
  -- One entry of the header against what is expected
  abbrev pub is_entry_valid : Text → Text → Bool
  is_entry_valid expected entry =
      is_signature entry && text_eq (decode (digest_of entry)) (decode expected)

  unfoldable pub verify_webhook_signature : Verification → Bool
  unfolding is_decimal is_public_id value_from signature_input split is_signature
  verify_webhook_signature v =
      let timestamp = value_from 0 v.timestamp_header in
      let tolerance = or_else v.tolerance_seconds 300 in
      if not (is_decimal v.timestamp_header) || not (is_public_id (text "whd_") v.delivery_id)
      then false
      else if is_out_of_time timestamp v.now_epoch_seconds tolerance
      then false
      else any (is_entry_valid (sign v.secret (signature_input timestamp v.delivery_id v.body)))
          (split b';' v.signature_header)

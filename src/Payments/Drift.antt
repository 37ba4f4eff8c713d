-- ===== src/Payments/Drift.antt =====
-- What the ledger owes a merchant against what the payment intents say
-- (packages/modules/payments/src and packages/modules/ledger/src).
pub mod Commands
use settle_flow.Webhooks.Checks.{passes}
use settle_flow.Common.Action.{ok}
use settle_flow.Payments.Repository.{
  set_refunded, set_captured, update_one, find_by_public_id, update_where,
}
use settle_flow.Common.Int.{pos_part, neg_part, ◌-ℤ◌, ◌+ℤ◌, ℤ, pos, int_laws}
use settle_flow.Ledger.Balance.{balance}
use settle_flow.Common.Text.{eq_of_text_eq, text_eq, Text}
use settle_flow.Database.Payments.{refunded, captured, PaymentIntent}
use settle_flow.Database.{Database}
use settle_flow.Database.Ledger.{merchant_payable, currency_eq, Currency}
use settle_flow.Common.{
  ◌++◌, ◌+◌, ℕ, some, find?-pass, ap, none_of_count, ◌≡◌, ◌∷◌, ◌&&◌, true, refl, map, inr, inl,
  if◌then◌else◌, false, count_if, arith, [], List, Bool-cases, Bool, All,
}

-- Captured less refunded, over the intents of a merchant in a currency.
unfoldable pub owed : Text → Currency → List PaymentIntent → ℤ
owed m cur [] = pos 0
owed m cur (p ∷ ps) =
    if text_eq p.merchant_id m && currency_eq p.currency cur
    then (pos p.captured_amount_minor -ℤ pos p.refunded_amount_minor) +ℤ owed m cur ps
    else owed m cur ps

-- What the account `merchant_payable` holds, a credit counting as negative, and the intents together.
unfoldable pub drift : Text → Currency → Database → ℤ
drift m cur db =
    balance m cur merchant_payable db.ledger_transactions +ℤ owed m cur db.payment_intents

abbrev pub worth : Text → Currency → PaymentIntent → ℤ
worth m cur p =
    if text_eq p.merchant_id m && currency_eq p.currency cur
    then pos p.captured_amount_minor -ℤ pos p.refunded_amount_minor
    else pos 0

owed_cons :
    (m : Text) (cur : Currency) (p : PaymentIntent) (ps : List PaymentIntent)
    → owed m cur (p ∷ ps) ≡ worth m cur p +ℤ owed m cur ps
unfolding owed
owed_cons m cur p ps = grind int_laws

even-new : (hit : Bool) → (if hit then pos 0 -ℤ pos 0 else pos 0) ≡ pos 0
even-new true = grind int_laws
even-new false = refl

owed-unpassed :
    (m : Text) (cur : Currency) (passes : PaymentIntent → Bool)
    (change : PaymentIntent → PaymentIntent) (rows : List PaymentIntent)
    → All (λ p. passes p ≡ false) rows
    → map (update_where passes change) rows ≡ rows
owed-unpassed m cur passes change [] none_pass = refl
owed-unpassed m cur passes change (p ∷ rows) none_pass =
    ground (arith, none_pass.0, owed-unpassed m cur passes change rows none_pass.1)

shifted : (a x y u v : ℤ) → x +ℤ u ≡ y +ℤ v → a +ℤ x +ℤ u ≡ a +ℤ y +ℤ v
shifted a x y u v h = let plus = ap pos_part h in let less = ap neg_part h in omega int_laws

-- An update of one row changes the sum by what it changes that row.
pub owed-update :
    (m : Text) (cur : Currency) (passes : PaymentIntent → Bool)
    (change : PaymentIntent → PaymentIntent) (row : PaymentIntent) (rows : List PaymentIntent)
    → count_if passes rows ≡ 1
    → All (λ p. passes p ≡ true → p ≡ row) rows
    → owed m cur (map (update_where passes change) rows) +ℤ worth m cur row
      ≡ owed m cur rows +ℤ worth m cur (change row)
owed-update m cur passes change row [] one only = absurd (ground arith)
owed-update m cur passes change row (p ∷ rows) one only = elim (Bool-cases (passes p)) [
  | inl hit ↦
      let rest =
        owed-unpassed m cur passes change rows (none_of_count passes rows (ground arith)) in
      let same : p ≡ row = only.0 hit in
      rw (hit, rest, owed_cons m cur (change p) rows, owed_cons m cur p rows, same) (omega int_laws)
  | inr miss ↦
      let ih = owed-update m cur passes change row rows (ground arith) only.1 in
      rw (miss, owed_cons m cur p (map (update_where passes change) rows), owed_cons m cur p rows)
        (shifted (worth m cur p) (owed m cur (map (update_where passes change) rows))
          (owed m cur rows) (worth m cur row) (worth m cur (change row)) ih)
]

-- A posting and an update of one row that offset each other leave the drift as it was.
pub offset :
    (b b' o o' e w w' : ℤ) → b' ≡ b +ℤ e → o' +ℤ w ≡ o +ℤ w' → w' +ℤ e ≡ w → b' +ℤ o' ≡ b +ℤ o
offset b b' o o' e w w' posted updated even =
    let p1 = ap pos_part posted in
    let n1 = ap neg_part posted in
    let p2 = ap pos_part updated in
    let n2 = ap neg_part updated in
    let p3 = ap pos_part even in let n3 = ap neg_part even in omega int_laws

pub even-capture :
    (hit : Bool) (a r : ℕ)
    → (if hit then pos a -ℤ pos r else pos 0) +ℤ (if hit then pos 0 -ℤ pos a else pos 0)
      ≡ (if hit then pos 0 -ℤ pos r else pos 0)
even-capture true a r = grind int_laws
even-capture false a r = grind int_laws

pub even-refund :
    (hit : Bool) (k r a : ℕ)
    → (if hit then pos k -ℤ pos (r + a) else pos 0)
        +ℤ (if hit then pos 0 -ℤ (pos 0 -ℤ pos a) else pos 0)
      ≡ (if hit then pos k -ℤ pos r else pos 0)
even-refund true k r a = grind int_laws
even-refund false k r a = grind int_laws

pub update_one-count :
    (passes : PaymentIntent → Bool) (change : PaymentIntent → PaymentIntent)
    (intent updated : PaymentIntent) (db db' : Database)
    → update_one passes change intent db ≡ (ok updated, db')
    → count_if passes db.payment_intents ≡ 1
unfolding update_one
update_one-count passes change intent updated db db' ran = ground arith

pub found_in_merchant :
    (merchant_id public_id : Text) (row : PaymentIntent) (db : Database)
    → find_by_public_id merchant_id public_id db ≡ some row
    → row.merchant_id ≡ merchant_id
unfolding find_by_public_id
found_in_merchant merchant_id public_id row db found =
    let passed =
      find?-pass (λ p. text_eq p.merchant_id merchant_id && text_eq p.public_id public_id)
        db.payment_intents row found in
    eq_of_text_eq row.merchant_id merchant_id (ground arith)

-- A capture adds to the worth of a row what its posting takes from the account.
pub level-capture :
    (m : Text) (cur : Currency) (row : PaymentIntent) (t : ℕ) (merchant : Text) (amount : ℕ)
    → row.merchant_id ≡ merchant
    → row.amount_minor ≡ amount
    → row.captured_amount_minor ≡ 0
    → worth m cur (set_captured row t row)
        +ℤ (if text_eq merchant m && currency_eq row.currency cur
            then pos 0 -ℤ pos amount
            else pos 0)
      ≡ worth m cur row
level-capture m cur row t merchant amount of_merchant of_amount zero_before =
    rw (← of_merchant, ← of_amount, zero_before)
      (even-capture (text_eq row.merchant_id m && currency_eq row.currency cur) row.amount_minor
        row.refunded_amount_minor)

-- A refund takes from the worth of a row what its posting adds to the account.
pub level-refund :
    (m : Text) (cur : Currency) (row : PaymentIntent) (t : ℕ) (merchant : Text) (amount : ℕ)
    → row.merchant_id ≡ merchant
    → worth m cur (set_refunded row amount t row)
        +ℤ (if text_eq merchant m && currency_eq row.currency cur
            then pos 0 -ℤ (pos 0 -ℤ pos amount)
            else pos 0)
      ≡ worth m cur row
level-refund m cur row t merchant amount of_merchant = rw (← of_merchant) (
    even-refund (text_eq row.merchant_id m && currency_eq row.currency cur)
      row.captured_amount_minor row.refunded_amount_minor amount)

pub owed-append :
    (m : Text) (cur : Currency) (ps : List PaymentIntent) (p : PaymentIntent)
    → worth m cur p ≡ pos 0
    → owed m cur (ps ++ (p ∷ [])) ≡ owed m cur ps
unfolding owed ◌+ℤ◌
owed-append m cur [] p nothing = rw (owed_cons m cur p [], nothing) refl
owed-append m cur (q ∷ ps) p nothing =
    rw (owed_cons m cur q (ps ++ (p ∷ [])), owed-append m cur ps p nothing, owed_cons m cur q ps)
      refl

-- A row on which nothing is captured or refunded is worth nothing.
pub worth-new :
    (m : Text) (cur : Currency) (p : PaymentIntent)
    → p.captured_amount_minor ≡ 0
    → p.refunded_amount_minor ≡ 0
    → worth m cur p ≡ pos 0
worth-new m cur p none_captured none_refunded =
    rw (none_captured, none_refunded)
      (even-new (text_eq p.merchant_id m && currency_eq p.currency cur))

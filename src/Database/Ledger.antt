-- ===== src/Database/Ledger.antt =====
-- The rows of the ledger (packages/modules/ledger/src/ledger.types.ts). The entries of a
-- transaction stand in its row, and name their account by its code: the index on
-- (merchant_id, code, currency) makes that account unique.
use settle_flow.Common.{ℕ, Bool, true, false, List, Option}
use settle_flow.Common.Text.{Text}
use settle_flow.Common.Int.{ℤ}

pub data Currency : Type 0 where
  etb usd : Currency

pub data AccountCode : Type 0 where
  fee_revenue merchant_payable provider_clearing settlement_clearing : AccountCode

pub data BusinessType : Type 0 where
  capture refund reversal settlement : BusinessType

pub data Side : Type 0 where
  credit debit : Side

abbrev pub currency_eq : Currency → Currency → Bool
currency_eq etb etb = true
currency_eq usd usd = true
currency_eq _ _ = false

abbrev pub code_eq : AccountCode → AccountCode → Bool
code_eq fee_revenue fee_revenue = true
code_eq merchant_payable merchant_payable = true
code_eq provider_clearing provider_clearing = true
code_eq settlement_clearing settlement_clearing = true
code_eq _ _ = false

abbrev pub business_type_eq : BusinessType → BusinessType → Bool
business_type_eq capture capture = true
business_type_eq refund refund = true
business_type_eq reversal reversal = true
business_type_eq settlement settlement = true
business_type_eq _ _ = false

abbrev pub side_eq : Side → Side → Bool
side_eq credit credit = true
side_eq debit debit = true
side_eq _ _ = false

-- `new Date(…)` may be invalid, `none`.
abbrev pub Date : Type 0
Date = Option ℕ

pub record LedgerAccount : Type 0 where
  pub id : Text
  pub merchant_id : Text
  pub code : AccountCode
  pub currency : Currency
  pub normal_side : Side

pub record LedgerEntry : Type 0 where
  pub account_code : AccountCode
  pub amount_minor : ℤ
  pub currency : Currency
  pub entry_seq : ℕ
  pub side : Side

pub record LedgerTransaction : Type 0 where
  pub id : Text
  pub public_id : Text
  pub merchant_id : Text
  pub currency : Currency
  pub business_type : BusinessType
  pub business_reference : Text
  pub reversal_of_id : Option Text
  pub request_id : Text
  pub occurred_at : Date
  pub posted_at : ℕ
  pub entries : List LedgerEntry

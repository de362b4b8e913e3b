-- ===== src/SecondaryRoyalty/Routes.antt =====
-- The handlers of backend/src/routes/secondary-royalty.js that change a table. The rate on the chain and
-- the transaction of the SDK are arguments, which are missing where the call fails; the product of a
-- price and a rate is exact here. Broadcasts are left out. `POST /distribute` is split at the call that it
-- awaits between its reads and its writes, where other requests run.
use stellar_royalty_splitter.Prelude.{
  ℕ, ◌*◌, ◌/◌, String, true, Option, none, some, List, [], ◌∷◌, map, ◌==◌, nat_eq, if◌then◌else◌,
  length,
}
use stellar_royalty_splitter.Prelude.Text.{Text, codes}
use stellar_royalty_splitter.History.Store.{record_transaction}
use stellar_royalty_splitter.Audit.{string, number, fields, Log, add_audit_log}
use stellar_royalty_splitter.SecondaryRoyalty.Store.{
  SecondarySale, NewSale, SaleFilters, record_secondary_sale, get_secondary_sales, sum_of,
  mark_sales_distributed,
}
use stellar_royalty_splitter.History.Store as History
use stellar_royalty_splitter.SecondaryRoyalty.Store as Royalties

pub record World : Type 0 where
  pub royalties : Royalties.Store
  pub history : History.Store
  pub log : Log

pub data Reply : Type 0 where
  -- `next(err)`
  failed : Reply
  royalty_is_zero conflict : Reply
  -- The transaction, the id of its record, the royalty and the rate.
  recorded : String → ℕ → ℕ → ℕ → Reply
  rate_set : String → ℕ → Reply
  -- The transaction, the id of its record, the number of sales and their royalties.
  distributed_to : String → ℕ → ℕ → ℕ → Reply

-- What follows the building of a transaction: the entry in the log.
abbrev pub logged : Option String → Option Log → (String → Reply) → World → Reply × World
logged none log reply w = (failed, w)
logged (some xdr) none reply w = (failed, w)
logged (some xdr) (some log) reply w = (reply xdr, record w { log = log })

abbrev pub with_sale :
    Option String
    → Option Log
    → (String → Reply)
    → Option (ℕ × Royalties.Store)
    → World
    → Reply × World
with_sale xdr log reply none w = (conflict, w)
with_sale xdr log reply (some (id, royalties)) w =
    logged xdr log reply (record w { royalties = royalties })

-- `POST /` on a valid body.
unfoldable pub post_sale :
    Option ℕ → Option String → String → NewSale → Text → World → Reply × World
unfolding record_transaction record_secondary_sale add_audit_log
post_sale none xdr wallet d now w = (failed, w)
post_sale (some rate) xdr wallet d now w =
    let amount = d.sale_price * rate / 10000 in
    let (id, history) =
      record_transaction d.contract_id "secondary_royalty" wallet none none now w.history in
    let log =
      add_audit_log d.contract_id "secondary_sale_recorded" (some wallet)
        (fields (
          (codes "transactionId", number id)
          ∷ ((codes "nftId", string d.nft_id)
              ∷ ((codes "salePrice", number d.sale_price)
                  ∷ ((codes "royaltyAmount", number amount)
                      ∷ ((codes "royaltyRateUsed", number rate) ∷ []))))))
        now w.log in
    if amount == 0
    then (royalty_is_zero, w)
    else with_sale xdr log (λ x. recorded x id amount rate)
        (record_secondary_sale d amount rate none now w.royalties) (record w { history = history })

-- `POST /set-rate` on a valid body.
unfoldable pub set_rate : Option String → String → String → ℕ → Text → World → Reply × World
unfolding record_transaction add_audit_log
set_rate xdr contract wallet rate now w =
    let (id, history) =
      record_transaction contract "secondary_royalty" wallet none none now w.history in
    logged xdr
      (add_audit_log contract "royalty_rate_set" (some wallet)
        (fields ((codes "transactionId", number id) ∷ ((codes "royaltyRate", number rate) ∷ [])))
        now w.log)
      (λ x. rate_set x id) (record w { history = history })

abbrev pub pending_only : SaleFilters
pending_only = record {
  nft_id = none;
  undistributed_only = true;
  start_date = none;
  end_date = none;
}

-- What `POST /distribute` knows when it waits for the transaction: the id of its record, and the sales
-- that it has read.
pub data Distribution : Type 0 where
  nothing_to_pay : Distribution
  builds : ℕ → List SecondarySale → Distribution

-- `POST /distribute` on a valid body, up to `await buildTx`.
unfoldable pub begin_distribute : String → String → Text → World → Distribution × World
unfolding record_transaction get_secondary_sales
begin_distribute contract wallet now w =
    let pending = get_secondary_sales contract 1000 0 pending_only w.royalties in
    let (id, history) =
      record_transaction contract "secondary_distribute" wallet none none now w.history in
    if length pending == 0
    then (nothing_to_pay, w)
    else (builds id pending, record w { history = history })

-- Behind `await buildTx`, in the world of that time: marks the sales and logs, if the transaction was
-- built.
unfoldable pub finish_distribute :
    Option String → String → String → Text → ℕ → List SecondarySale → World → Reply × World
unfolding add_audit_log mark_sales_distributed
finish_distribute none contract wallet now id pending w = (failed, w)
finish_distribute (some xdr) contract wallet now id pending w =
    let total = sum_of (λ (s : SecondarySale). s.royalty_amount) pending in
    logged (some xdr)
      (add_audit_log contract "secondary_distribution_initiated" (some wallet)
        (fields (
          (codes "transactionId", number id)
          ∷ ((codes "numberOfSales", number (length pending))
              ∷ ((codes "totalRoyalties", number total) ∷ []))))
        now w.log)
      (λ x. distributed_to x id (length pending) total)
      (record w {
        royalties = mark_sales_distributed (map (λ (s : SecondarySale). s.id) pending) w.royalties;
      })

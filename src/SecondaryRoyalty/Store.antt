-- ===== src/SecondaryRoyalty/Store.antt =====
-- backend/src/database/secondary-royalties.js. Prices and amounts are numbers, which the tables hold as
-- decimal texts; sums of REAL values are exact here, and `toFixed` is left out.
use stellar_royalty_splitter.Prelude.{
  ℕ, ◌+◌, String, Bool, true, false, not, ◌&&◌, ◌||◌, Option, none, some, List, [], ◌∷◌, ◌++◌, map,
  ◌==◌, string_eq, nat_eq, if◌then◌else◌, any, keep, find_first, update_where, take, drop, length,
  count_if,
}
use stellar_royalty_splitter.Prelude.Text.{Text}
use stellar_royalty_splitter.Prelude.TextOrder.{text_less}
use stellar_royalty_splitter.Prelude.Sorting.{sort}
use stellar_royalty_splitter.History.Store.{Transaction}
use stellar_royalty_splitter.History.Store as History

pub record SecondarySale : Type 0 where
  pub id : ℕ
  pub contract_id : String
  pub nft_id : String
  pub previous_owner : String
  pub new_owner : String
  pub sale_price : ℕ
  pub sale_token : String
  pub royalty_amount : ℕ
  pub royalty_rate : ℕ
  pub distributed : Bool
  pub timestamp : Text
  pub transaction_hash : Option String

pub record RoyaltyDistribution : Type 0 where
  pub id : ℕ
  pub transaction_id : ℕ
  pub contract_id : String
  pub total_royalties_distributed : ℕ
  pub number_of_sales : ℕ
  pub timestamp : Text

pub record Store : Type 0 where
  pub sales : List SecondarySale
  pub distributions : List RoyaltyDistribution
  pub next_sale : ℕ
  pub next_distribution : ℕ
  pub writes : ℕ

-- The values of a sale that its handler passes.
pub record NewSale : Type 0 where
  pub contract_id : String
  pub nft_id : String
  pub previous_owner : String
  pub new_owner : String
  pub sale_price : ℕ
  pub sale_token : String

-- `UNIQUE (contractId, nftId, previousOwner, newOwner, salePrice, saleToken)`
abbrev pub is_same_sale : NewSale → SecondarySale → Bool
is_same_sale d s =
    s.contract_id == d.contract_id
    && (s.nft_id == d.nft_id
        && (s.previous_owner == d.previous_owner
            && (s.new_owner == d.new_owner
                && (s.sale_price == d.sale_price && s.sale_token == d.sale_token))))

abbrev pub new_sale : ℕ → NewSale → ℕ → ℕ → Option String → Text → SecondarySale
new_sale id d royalty_amount royalty_rate hash now = record {
  id = id;
  contract_id = d.contract_id;
  nft_id = d.nft_id;
  previous_owner = d.previous_owner;
  new_owner = d.new_owner;
  sale_price = d.sale_price;
  sale_token = d.sale_token;
  royalty_amount = royalty_amount;
  royalty_rate = royalty_rate;
  distributed = false;
  timestamp = now;
  transaction_hash = hash;
}

-- `recordSecondarySale`; nothing where the constraint fails.
unfoldable pub record_secondary_sale :
    NewSale → ℕ → ℕ → Option String → Text → Store → Option (ℕ × Store)
record_secondary_sale d royalty_amount royalty_rate hash now s =
    if any (is_same_sale d) s.sales
    then none
    else some (
      s.next_sale,
      record s {
        sales = s.sales ++ (new_sale s.next_sale d royalty_amount royalty_rate hash now ∷ []);
        next_sale = s.next_sale + 1;
        writes = s.writes + 1;
      },
    )

-- The filters that are set.
pub record SaleFilters : Type 0 where
  pub nft_id : Option String
  pub undistributed_only : Bool
  pub start_date : Option Text
  pub end_date : Option Text

abbrev passes {ℓ} : {A : Type ℓ} → Option A → (A → Bool) → Bool
passes none p = true
passes (some a) p = p a

unfoldable pub is_sale : String → SaleFilters → SecondarySale → Bool
is_sale contract f s =
    s.contract_id == contract
    && (passes f.nft_id (λ nft. s.nft_id == nft)
        && ((not f.undistributed_only || not s.distributed)
            && (passes f.start_date (λ start. not (text_less s.timestamp start))
                && passes f.end_date (λ end. not (text_less end s.timestamp)))))

abbrev pub later : SecondarySale → SecondarySale → Bool
later a b = text_less b.timestamp a.timestamp

-- `getSecondarySales`
unfoldable pub get_secondary_sales : String → ℕ → ℕ → SaleFilters → Store → List SecondarySale
get_secondary_sales contract limit offset f s =
    take limit (drop offset (sort later (keep (is_sale contract f) s.sales)))

-- `countSecondarySales`
unfoldable pub count_secondary_sales : String → SaleFilters → Store → ℕ
unfolding is_sale
count_secondary_sales contract f s =
    count_if (is_sale contract (record f { undistributed_only = false })) s.sales

abbrev pub is_one_of : List ℕ → SecondarySale → Bool
is_one_of ids s = any (λ id. id == s.id) ids

abbrev pub marked : SecondarySale → SecondarySale
marked s = record s { distributed = true }

-- `markSalesDistributed`
unfoldable pub mark_sales_distributed : List ℕ → Store → Store
mark_sales_distributed ids s = record s {
  sales = update_where (is_one_of ids) marked s.sales;
  writes = s.writes + 1;
}

-- `recordSecondaryRoyaltyDistribution`
unfoldable pub record_secondary_royalty_distribution : ℕ → String → ℕ → ℕ → Text → Store → Store
record_secondary_royalty_distribution transaction_id contract total number now s =
    let row : RoyaltyDistribution = record {
      id = s.next_distribution;
      transaction_id = transaction_id;
      contract_id = contract;
      total_royalties_distributed = total;
      number_of_sales = number;
      timestamp = now;
    } in
    record s {
      distributions = s.distributions ++ (row ∷ []);
      next_distribution = s.next_distribution + 1;
      writes = s.writes + 1;
    }

-- A distribution with its transaction, if that is there.
abbrev joined : History.Store → RoyaltyDistribution → RoyaltyDistribution × Option Transaction
joined h d = (d, find_first (λ (t : Transaction). t.id == d.transaction_id) h.transactions)

abbrev of_contract : String → RoyaltyDistribution → Bool
of_contract contract d = d.contract_id == contract

-- `ORDER BY srd.timestamp DESC`
abbrev latest_first : List RoyaltyDistribution → List RoyaltyDistribution
latest_first = sort (λ (a b : RoyaltyDistribution). text_less b.timestamp a.timestamp)

-- `getSecondaryRoyaltyDistributions`
unfoldable pub get_secondary_royalty_distributions :
    String → ℕ → ℕ → Store → History.Store → List (RoyaltyDistribution × Option Transaction)
get_secondary_royalty_distributions contract limit offset s h =
    map (joined h)
      (take limit (drop offset (latest_first (keep (of_contract contract) s.distributions))))

-- `SUM(CAST(… AS REAL))`
abbrev pub sum_of : (SecondarySale → ℕ) → List SecondarySale → ℕ
sum_of f [] = 0
sum_of f (s ∷ sales) = f s + sum_of f sales

pub record RoyaltyStatistics : Type 0 where
  pub total_secondary_sales : ℕ
  pub total_royalties_generated : ℕ
  pub total_volume : ℕ
  pub pending_royalty_pool : ℕ
  pub last_distribution : Option RoyaltyDistribution

abbrev head_of : List RoyaltyDistribution → Option RoyaltyDistribution
head_of [] = none
head_of (d ∷ rest) = some d

abbrev is_after : Option RoyaltyDistribution → SecondarySale → Bool
is_after none s = true
is_after (some d) s = text_less d.timestamp s.timestamp

-- `getRoyaltyStatistics`: pending are the sales behind the last distribution.
unfoldable pub get_royalty_statistics : String → Store → RoyaltyStatistics
get_royalty_statistics contract s =
    let sales = keep (λ (x : SecondarySale). x.contract_id == contract) s.sales in
    let final = head_of (latest_first (keep (of_contract contract) s.distributions)) in
    record {
      total_secondary_sales = length sales;
      total_royalties_generated = sum_of (λ (x : SecondarySale). x.royalty_amount) sales;
      total_volume = sum_of (λ (x : SecondarySale). x.sale_price) sales;
      pending_royalty_pool =
          sum_of (λ (x : SecondarySale). x.royalty_amount) (keep (is_after final) sales);
      last_distribution = final;
    }

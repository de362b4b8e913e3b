-- ===== src/SecondaryRoyalty/Tests.antt =====
-- A resale at 1000 with a rate of 5 percent, recorded and distributed.
use stellar_royalty_splitter.Prelude.{
  ℕ, ◌+◌, ◌*◌, ◌≤◌, ◌<◌, ◌≡◌, refl, false, none, some, List, [], ◌∷◌, ◌++◌, nat_eq, any,
}
use stellar_royalty_splitter.Prelude.Text.{codes}
use stellar_royalty_splitter.Prelude.Sorting.{sort, insert}
use stellar_royalty_splitter.History.Store.{record_transaction}
use stellar_royalty_splitter.Audit.{add_audit_log}
use stellar_royalty_splitter.SecondaryRoyalty.Store.{
  SecondarySale, NewSale, is_same_sale, new_sale, is_sale, record_secondary_sale,
  get_secondary_sales, mark_sales_distributed, get_royalty_statistics,
}
use stellar_royalty_splitter.SecondaryRoyalty.Routes.{
  World, failed, royalty_is_zero, conflict, recorded, distributed_to, post_sale, nothing_to_pay,
  builds, begin_distribute, finish_distribute,
}
use stellar_royalty_splitter.SecondaryRoyalty.Sale.{IsSaleOf, post_sale_records, post_sale_again}
use stellar_royalty_splitter.SecondaryRoyalty.Distributed.{
  pending_royalties, distribute_conserves, distribute_races,
}

abbrev empty : World
empty = record {
  royalties = record {
    sales = [];
    distributions = [];
    next_sale = 1;
    next_distribution = 1;
    writes = 0;
  };
  history = record { transactions = []; payouts = []; next_id = 1; writes = 0 };
  log = record { entries = []; next_id = 1; writes = 0 };
}

abbrev rate : ℕ
rate = 500

abbrev resale : NewSale
resale = record {
  contract_id = "C1";
  nft_id = "nft";
  previous_owner = "GA";
  new_owner = "GB";
  sale_price = 1000;
  sale_token = "CT";
}

abbrev sold : World
sold = record empty {
  royalties = record empty.royalties {
    sales = new_sale 1 resale 50 500 none (codes "2025-01-01 00:00:00") ∷ [];
    next_sale = 2;
    writes = 1;
  };
}

recorded_test :
    (post_sale (some 500) (some "xdr") "GA" resale (codes "2025") empty).0 ≡ recorded "xdr" 1 50 500
unfolding post_sale record_transaction record_secondary_sale add_audit_log
recorded_test = refl

post_tests :
    ((post_sale none (some "xdr") "GA" resale (codes "2025") empty).0 ≡ failed)
    × ((post_sale (some 9) (some "xdr") "GA" resale (codes "2025") empty).0 ≡ royalty_is_zero)
    × ((post_sale (some 500) none "GA" resale (codes "2025") empty).0 ≡ failed)
    × ((post_sale (some 500) (some "xdr") "GA" resale (codes "2025") sold).0 ≡ conflict)
    × ((begin_distribute "C1" "GA" (codes "2025") empty).0 ≡ nothing_to_pay)
unfolding post_sale record_transaction record_secondary_sale add_audit_log begin_distribute
    get_secondary_sales sort
post_tests = (refl, refl, refl, refl, refl)

abbrev read_sales : List SecondarySale
read_sales = sold.royalties.sales

abbrev begun : World
begun = (begin_distribute "C1" "GA" (codes "2025") sold).1

abbrev paid : World
paid = (finish_distribute (some "xdr") "C1" "GA" (codes "2026") 1 read_sales begun).1

begun_test :
    ((begin_distribute "C1" "GA" (codes "2025") sold).0 ≡ builds 1 read_sales)
    × ((begin_distribute "C1" "GB" (codes "2025") begun).0 ≡ builds 2 read_sales)
    × (begun.royalties ≡ sold.royalties)
unfolding begin_distribute get_secondary_sales is_sale sort insert record_transaction
begun_test = (refl, refl, refl)

-- The pool of the statistics still holds what was distributed, as no distribution is recorded.
pool_test : (get_royalty_statistics "C1" paid.royalties).pending_royalty_pool ≡ 50
unfolding begin_distribute finish_distribute get_secondary_sales is_sale sort insert
    record_transaction add_audit_log mark_sales_distributed get_royalty_statistics
pool_test = refl

post_sale_records_example :
    let after = (post_sale (some 500) (some "xdr") "GA" resale (codes "2025") empty).1 in
    (rate ≡ 500)
    × (1 ≤ 50)
    × (50 * 10000 ≤ 1000 * 500)
    × (1000 * 500 < (50 + 1) * 10000)
    × (sale : SecondarySale) × (after.royalties.sales ≡ [] ++ (sale ∷ []))
    × IsSaleOf resale 50 rate (codes "2025") sale
    × (any (is_same_sale resale) empty.royalties.sales ≡ false)
post_sale_records_example =
    post_sale_records rate (some "xdr") "GA" resale (codes "2025") empty "xdr" 1 50 500
      recorded_test

post_sale_again_example :
    let first = (post_sale (some 500) none "GA" resale (codes "2025") empty).1 in
    let (reply, after) = post_sale (some 400) (some "xdr") "GA" resale (codes "2026") first in
    (reply ≡ conflict) × (after.royalties ≡ first.royalties)
post_sale_again_example =
    post_sale_again 500 400 none (some "xdr") "GA" "GA" resale (codes "2025") (codes "2026") empty
      refl refl

distribute_conserves_example :
    let (reply, after) =
      finish_distribute (some "xdr") "C1" "GA" (codes "2026") 1 read_sales begun in
    let (refusal, unpaid) = finish_distribute none "C1" "GA" (codes "2026") 1 read_sales begun in
    (1 ≤ 1)
    × (1 ≤ 1000)
    × (reply ≡ distributed_to "xdr" 1 1 50)
    × (pending_royalties "C1" sold ≡ 50 + pending_royalties "C1" after)
    × (refusal ≡ failed)
    × (pending_royalties "C1" unpaid ≡ pending_royalties "C1" sold)
distribute_conserves_example =
    distribute_conserves "C1" "GA" "xdr" (codes "2025") (codes "2026") sold begun 1 read_sales
      (tt, tt) begun_test.0 begun_test.2

distribute_races_example :
    let (reply, middle) =
      finish_distribute (some "x1") "C1" "GA" (codes "2026") 1 read_sales sold in
    let (reply', after) =
      finish_distribute (some "x2") "C1" "GB" (codes "2026") 2 read_sales middle in
    (reply ≡ distributed_to "x1" 1 1 50)
    × (reply' ≡ distributed_to "x2" 2 1 50)
    × (pending_royalties "C1" sold ≡ 50 + pending_royalties "C1" after)
distribute_races_example =
    distribute_races "C1" "GA" "GB" "x1" "x2" (codes "2025") (codes "2025") (codes "2026") sold sold
      1 2 read_sales read_sales (tt, tt) begun_test.0 begun_test.1 refl

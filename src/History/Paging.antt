-- ===== src/History/Paging.antt =====
-- The two ways of paging through a listing of backend/src/database/transactions.js compared.
use stellar_royalty_splitter.Prelude.{
  ℕ, suc, ◌≤◌, ◌≡◌, refl, sym, ap, ◌∙◌, String, true, false, Option, none, some, List, [], ◌∷◌, map,
  ltb, arith, Bool-cases, inl, inr, keep, take, drop, length, length-keep-eq-count_if,
}
use mathlib.Core.Path.{subst}
use stellar_royalty_splitter.Prelude.Lists.Slices.{
  last, take-all, take_again, length-take_eq, drop_rest, keep_and, keep_and_true, length-map,
  take-map,
}
use stellar_royalty_splitter.Prelude.Sorting.{sort, keep-sort, length-sort}
use stellar_royalty_splitter.Prelude.Sorting.Chain.{keep-behind}
use stellar_royalty_splitter.History.Store.{
  Transaction, Store, Filters, Row, row, Cursor, cursor_of, cursor_at, is_behind, Page, page,
  is_listed, newer, get_transaction_count, get_transaction_history, get_transaction_history_cursor,
}
use stellar_royalty_splitter.History.Newest.{DistinctIds, newer-WeakOrder, sort-IsChain}

-- The whole listing of a contract.
abbrev pub listing : Store → String → Filters → List Transaction
listing s contract f = sort newer (keep (is_listed s contract f) s.transactions)

page_more :
    (limit : ℕ) (found : List Row)
    → ltb limit (length found) ≡ true
    → page limit found
      ≡ record { rows = take limit found; next_cursor = cursor_at (last (take limit found)) }
page_more limit found h = rw h refl

page_last :
    (limit : ℕ) (found : List Row)
    → ltb limit (length found) ≡ false
    → page limit found ≡ record { rows = found; next_cursor = none }
page_last limit found h = rw h refl

-- The page of a list of transactions, of which one more than the limit is read.
abbrev pub page_of : Store → ℕ → List Transaction → Page
page_of s limit ts = page limit (map (row s) (take (suc limit) ts))

read_more :
    (s : Store) (limit : ℕ) (ts : List Transaction)
    → ltb limit (length (map (row s) (take (suc limit) ts))) ≡ ltb limit (length ts)
read_more s limit ts =
    ground (arith, length-map (row s) (take (suc limit) ts), length-take_eq (suc limit) ts)

pub page_of_more :
    (s : Store) (limit : ℕ) (ts : List Transaction)
    → ltb limit (length ts) ≡ true
    → page_of s limit ts ≡ record {
      rows = map (row s) (take limit ts);
      next_cursor = cursor_at (last (map (row s) (take limit ts)));
    }
page_of_more s limit ts h =
    let same : take limit (map (row s) (take (suc limit) ts)) ≡ map (row s) (take limit ts) =
      take-map (row s) limit (take (suc limit) ts) ∙ ap (map (row s)) (take_again limit ts) in
    page_more limit (map (row s) (take (suc limit) ts)) (read_more s limit ts ∙ h)
    ∙ ap (λ (rs : List Row). record { rows = rs; next_cursor = cursor_at (last rs) }) same

pub page_of_last :
    (s : Store) (limit : ℕ) (ts : List Transaction)
    → ltb limit (length ts) ≡ false
    → page_of s limit ts ≡ record { rows = map (row s) (take limit ts); next_cursor = none }
page_of_last s limit ts h =
    let few : length ts ≤ limit = ground arith in
    let same : take (suc limit) ts ≡ take limit ts =
      take-all (suc limit) ts (omega (arith, few)) ∙ sym (take-all limit ts few) in
    page_last limit (map (row s) (take (suc limit) ts)) (read_more s limit ts ∙ h)
    ∙ ap (λ (xs : List Transaction). record { rows = map (row s) xs; next_cursor = none }) same

page_of_rows :
    (s : Store) (limit : ℕ) (ts : List Transaction)
    → (page_of s limit ts).rows ≡ map (row s) (take limit ts)
page_of_rows s limit ts = elim (Bool-cases (ltb limit (length ts))) [
  | inl h ↦ ap (λ (p : Page). p.rows) (page_of_more s limit ts h)
  | inr h ↦ ap (λ (p : Page). p.rows) (page_of_last s limit ts h)
]

-- The rows that a cursor leaves of the listing.
abbrev pub left_by : Store → String → Filters → Option Cursor → List Transaction
left_by s contract f none = listing s contract f
left_by s contract f (some c) = keep (is_behind c) (listing s contract f)

pub page_left_by :
    (s : Store) (contract : String) (limit : ℕ) (cursor : Option Cursor) (f : Filters)
    → get_transaction_history_cursor s contract limit cursor f
      ≡ page_of s limit (left_by s contract f cursor)
unfolding get_transaction_history_cursor
page_left_by s contract limit none f =
    ap (λ ts. page_of s limit (sort newer ts))
      (keep_and_true (is_listed s contract f) s.transactions)
page_left_by s contract limit (some c) f = ap (page_of s limit) (
    ap (sort newer) (keep_and (is_listed s contract f) (is_behind c) s.transactions)
    ∙ sym (keep-sort newer-WeakOrder (is_behind c) (keep (is_listed s contract f) s.transactions)))

-- Behind the cursor of a row lie the rows that follow it.
pub left_by-row :
    (s : Store) (contract : String) (f : Filters) (i : ℕ) (t : Transaction)
    (rest : List Transaction)
    → DistinctIds s.transactions
    → drop i (listing s contract f) ≡ t ∷ rest
    → left_by s contract f (some (cursor_of (row s t))) ≡ rest
unfolding newer
left_by-row s contract f i t rest distinct e =
    keep-behind newer-WeakOrder i (listing s contract f) t rest
      (sort-IsChain (is_listed s contract f) s.transactions distinct) e

one_row :
    (s : Store) (ts : List Transaction) (r : Row)
    → map (row s) (take 1 ts) ≡ r ∷ []
    → (t : Transaction) × (rest : List Transaction) × (ts ≡ t ∷ rest) × (row s t ≡ r)
one_row s [] r e = cc
one_row s (t ∷ rest) r e = (t, rest, refl, cc)

-- The page that a row's cursor asks for shows the same rows as the page of the deprecated paging
-- whose offset is the number of rows up to that row, under the same filters, if no id stands twice.
pub cursor_page-offset_page :
    (s : Store) (contract : String) (f : Filters) (limit i : ℕ) (r : Row)
    → DistinctIds s.transactions
    → get_transaction_history s contract 1 i f ≡ r ∷ []
    → (get_transaction_history_cursor s contract limit (some (cursor_of r)) f).rows
      ≡ get_transaction_history s contract limit (suc i) f
unfolding get_transaction_history
cursor_page-offset_page s contract f limit i r distinct shown =
    let (t, rest, at, same) = one_row s (drop i (listing s contract f)) r shown in
    let left : left_by s contract f (some (cursor_of (row s t)))
        ≡ drop (suc i) (listing s contract f) =
      left_by-row s contract f i t rest distinct at
      ∙ sym (drop_rest i (listing s contract f) t rest at) in
    subst
      (λ q.
        (get_transaction_history_cursor s contract limit (some (cursor_of q)) f).rows
        ≡ map (row s) (take limit (drop (suc i) (listing s contract f))))
      same
      (ap (λ (p : Page). p.rows) (page_left_by s contract limit (some (cursor_of (row s t))) f)
        ∙ (page_of_rows s limit (left_by s contract f (some (cursor_of (row s t))))
            ∙ ap (λ ts. map (row s) (take limit ts)) left))

pub count-listing :
    (s : Store) (contract : String) (f : Filters)
    → get_transaction_count s contract f ≡ length (listing s contract f)
unfolding get_transaction_count
count-listing s contract f = sym (
    length-sort newer (keep (is_listed s contract f) s.transactions)
    ∙ length-keep-eq-count_if (is_listed s contract f) s.transactions)

-- ===== src/History/Walk.antt =====
-- A client that follows the cursors of backend/src/database/transactions.js to the end.
use stellar_royalty_splitter.Prelude.{
  ℕ, zero, suc, ◌+◌, ◌≤◌, ◌<◌, ◌≡◌, refl, sym, ap, ◌∙◌, String, Option, none, some, List, ◌∷◌, ◌++◌,
  map, ltb, arith, Bool-cases, inl, inr, take, drop, length,
}
use stellar_royalty_splitter.Prelude.Lists.Slices.{
  take-all, length-drop, drop-drop, take-append-drop, append-map, last_taken,
}
use stellar_royalty_splitter.History.Store.{
  Transaction, Store, Filters, Row, row, Cursor, cursor_of, cursor_at, Page, get_transaction_count,
  get_transaction_history, get_transaction_history_cursor,
}
use stellar_royalty_splitter.History.Newest.{DistinctIds}
use stellar_royalty_splitter.History.Paging.{
  listing, left_by, left_by-row, page_of, page_of_more, page_of_last, page_left_by, count-listing,
}

abbrev joined : List Row → Option (List Row) → Option (List Row)
joined rows none = none
joined rows (some rest) = some (rows ++ rest)

abbrev go_on : Page → (Cursor → Option (List Row)) → Option (List Row)
go_on shown follow = elim shown.next_cursor [
  | none ↦ some shown.rows
  | some next ↦ joined shown.rows (follow next)
]

-- A client that follows the cursors from a page on, for at most `fuel` pages.
unfoldable pub walk : ℕ → Store → String → ℕ → Option Cursor → Filters → Option (List Row)
walk zero s contract limit cursor f = none
walk (suc fuel) s contract limit cursor f =
    go_on (get_transaction_history_cursor s contract limit cursor f)
      (λ next. walk fuel s contract limit (some next) f)

-- Behind a full page the walk goes on with what its last row leaves.
next_left :
    (s : Store) (contract : String) (f : Filters) (i j : ℕ) (t : Transaction)
    → DistinctIds s.transactions
    → drop j (drop i (listing s contract f)) ≡ t ∷ drop (suc j) (drop i (listing s contract f))
    → left_by s contract f (some (cursor_of (row s t))) ≡ drop (i + suc j) (listing s contract f)
next_left s contract f i j t distinct at =
    let whole = listing s contract f in
    left_by-row s contract f (i + j) t (drop (suc j) (drop i whole)) distinct
      (sym (drop-drop j i whole) ∙ at)
    ∙ drop-drop (suc j) i whole

walk_left :
    (fuel : ℕ) (s : Store) (contract : String) (limit i : ℕ) (cursor : Option Cursor) (f : Filters)
    → DistinctIds s.transactions
    → 1 ≤ limit
    → left_by s contract f cursor ≡ drop i (listing s contract f)
    → length (drop i (listing s contract f)) < fuel
    → walk fuel s contract limit cursor f ≡ some (map (row s) (drop i (listing s contract f)))
unfolding walk
walk_left zero s contract limit i cursor f distinct pos left enough = absurd (omega arith)
walk_left fuel s contract zero i cursor f distinct pos left enough = absurd (omega arith)
walk_left (suc fuel) s contract (suc j) i cursor f distinct pos left enough =
    let ts = drop i (listing s contract f) in
    let follow : Cursor → Option (List Row) = λ next. walk fuel s contract (suc j) (some next) f in
    let shown : get_transaction_history_cursor s contract (suc j) cursor f ≡ page_of s (suc j) ts =
      page_left_by s contract (suc j) cursor f ∙ ap (page_of s (suc j)) left in
    elim (Bool-cases (ltb (suc j) (length ts))) [
      | inr h ↦
          let few : length ts ≤ suc j = ground arith in
          ap (λ p. go_on p follow) (shown ∙ page_of_last s (suc j) ts h)
          ∙ ap (λ xs. some (map (row s) xs)) (take-all (suc j) ts few)
      | inl h ↦
          let more : suc j < length ts = ground arith in
          let (t, at, is_last) = last_taken (row s) j ts (omega (arith, more)) in
          let rows = map (row s) (take (suc j) ts) in
          let whole = listing s contract f in
          let shorter : length (drop (i + suc j) whole) < fuel =
            omega (arith, more, enough, length-drop i whole, length-drop (i + suc j) whole) in
          let rest =
            walk_left fuel s contract (suc j) (i + suc j) (some (cursor_of (row s t))) f distinct
              pos (next_left s contract f i j t distinct at) shorter in
          ap (λ p. go_on p follow) (shown ∙ page_of_more s (suc j) ts h)
          ∙ (ap (λ o. go_on (record { rows = rows; next_cursor = cursor_at o }) follow) is_last
              ∙ (ap (joined rows)
                    (rest ∙ ap (λ xs. some (map (row s) xs)) (sym (drop-drop (suc j) i whole)))
                  ∙ ap some (
                      append-map (row s) (take (suc j) ts) (drop (suc j) ts)
                      ∙ ap (map (row s)) (take-append-drop (suc j) ts))))
    ]

-- Following the cursors from the first page on ends, within one page more than there are rows, and
-- the pages joined are the whole listing: the deprecated paging's answer for the whole count, every
-- row once and in its order, if a page has room for a row and no id stands twice.
pub walk_ends :
    (s : Store) (contract : String) (f : Filters) (limit : ℕ)
    → DistinctIds s.transactions
    → 1 ≤ limit
    → let total = get_transaction_count s contract f in
      walk (suc total) s contract limit none f ≡ some (get_transaction_history s contract total 0 f)
unfolding get_transaction_history
walk_ends s contract f limit distinct pos =
    let whole = listing s contract f in
    let total = get_transaction_count s contract f in
    let all_rows : length whole ≤ total = omega (arith, count-listing s contract f) in
    walk_left (suc total) s contract limit 0 none f distinct pos refl (omega (arith, all_rows))
    ∙ ap (λ xs. some (map (row s) xs)) (sym (take-all total whole all_rows))

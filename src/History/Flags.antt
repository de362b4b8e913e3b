-- ===== src/History/Flags.antt =====
-- What `hasNextPage` of backend/src/routes/history.js says.
use stellar_royalty_splitter.Prelude.{
  ℕ, ◌+◌, ◌≤◌, ◌<◌, ◌≡◌, ◌≢◌, ◌↔◌, refl, sym, ◌∙◌, String, Bool, true, Option, none, some, List, [],
  ◌∷◌, map, Bool-cases, inl, inr, length, take, drop, ltb, min, arith,
}
use mathlib.Core.Path.{subst}
use stellar_royalty_splitter.Prelude.Text.{codes, Text}
use stellar_royalty_splitter.Prelude.Lists.Slices.{length-take_eq, length-drop, length-map}
use stellar_royalty_splitter.History.Store.{
  Store, Filters, Row, row, Cursor, get_transaction_count, get_transaction_history,
}
use stellar_royalty_splitter.History.Paging.{listing, count-listing}
use stellar_royalty_splitter.History.Parameters.{
  is_contract_id, Pagination, Checked, valid, refused, parse_pagination, parse_pagination_bounds,
  Decoded, CursorPagination, parse_cursor_pagination,
}
use stellar_royalty_splitter.History.Routes.{
  Query, OffsetInfo, Reply, bad_request, cursor_page, offset_page, set_text, is_valid_type,
  filters_of, offset_reply, is_valid_date, cursor_reply, listed, get_history,
}

no_rows : {A : Type 0} (xs : List A) → (xs ≢ []) ↔ (0 < length xs)
no_rows [] = (λ h. absurd (h refl), λ h e. absurd (omega arith))
no_rows (x ∷ xs) = (λ h. omega arith, λ h e. cc)

length-history :
    (s : Store) (contract : String) (limit offset : ℕ) (f : Filters)
    → (0 < limit)
    → (0 < length (get_transaction_history s contract limit offset f))
      ↔ (offset < get_transaction_count s contract f)
unfolding get_transaction_history
length-history s contract limit offset f room =
    let whole = listing s contract f in
    let rows = take limit (drop offset whole) in
    let measured : length (map (row s) rows) ≡ min limit (length (drop offset whole)) =
      length-map (row s) rows ∙ length-take_eq limit (drop offset whole) in
    let left = length-drop offset whole in
    let total = count-listing s contract f in
    (λ h. omega (arith, h, measured, left, total), λ h. omega (arith, h, measured, left, total))

-- What a reply with an offset says of the next page.
abbrev Announces : Store → String → Query → Reply → Type 0
Announces s contract q (bad_request message) = Unit
Announces s contract q (cursor_page rows limit next more) = Unit
Announces s contract q (offset_page rows info) =
    (rows ≡ get_transaction_history s contract info.limit info.offset (filters_of q))
    × ((info.has_next_page ≡ true) ↔ (
        get_transaction_history s contract info.limit (info.offset + info.limit) (filters_of q)
        ≢ []))

next_shown :
    (s : Store) (contract : String) (f : Filters) (p : Pagination)
    → 1 ≤ p.limit
    → (ltb (p.offset + p.limit) (get_transaction_count s contract f) ≡ true)
      ↔ (get_transaction_history s contract p.limit (p.offset + p.limit) f ≢ [])
next_shown s contract f p room =
    let (to, from) = length-history s contract p.limit (p.offset + p.limit) f room in
    let (filled, shown) =
      no_rows (get_transaction_history s contract p.limit (p.offset + p.limit) f) in
    (
      λ h.
          let below : p.offset + p.limit < get_transaction_count s contract f = ground arith in
          shown (from below),
      λ h. let below = to (filled h) in ground (arith, below),
    )

offset_reply-Announces :
    (s : Store) (contract : String) (q : Query) (c : Checked Pagination)
    → c ≡ parse_pagination q.limit q.offset 50 100
    → Announces s contract q (offset_reply s contract (filters_of q) c)
offset_reply-Announces s contract q (refused message) h = tt
offset_reply-Announces s contract q (valid p) h =
    let (room, most) = parse_pagination_bounds q.limit q.offset 50 100 p (omega arith) (sym h) in
    (refl, next_shown s contract (filters_of q) p room)

module _ (is_date : Text → Bool) (decode : Text → Option Decoded) (encode : Cursor → Text) where
  cursor_reply-Announces :
      (s : Store) (contract : String) (q : Query) (c : Checked CursorPagination)
      → Announces s contract q (cursor_reply is_date decode encode s contract (filters_of q) c)
  cursor_reply-Announces s contract q (refused message) = tt
  cursor_reply-Announces s contract q (valid p) = tt

  listed-Announces :
      (s : Store) (contract : String) (q : Query) (cursor : Option Text)
      → Announces s contract q (listed is_date decode encode s contract q cursor)
  listed-Announces s contract q none =
      offset_reply-Announces s contract q (parse_pagination q.limit q.offset 50 100) refl
  listed-Announces s contract q (some cursor) =
      cursor_reply-Announces s contract q (parse_cursor_pagination decode q.limit cursor 50 100)

  get_history-Announces :
      (s : Store) (contract : String) (q : Query)
      → Announces s contract q (get_history is_date decode encode contract q s)
  unfolding get_history
  get_history-Announces s contract q = elim (Bool-cases (is_contract_id (codes contract))) [
    | inr h ↦ rw h tt
    | inl h ↦ elim (Bool-cases (is_valid_type q.type)) [
      | inr g ↦ rw (h, g) tt
      | inl g ↦ elim (Bool-cases (is_valid_date is_date decode encode q.start_date)) [
        | inr a ↦ rw (h, g, a) tt
        | inl a ↦ elim (Bool-cases (is_valid_date is_date decode encode q.end_date)) [
          | inr b ↦ rw (h, g, a, b) tt
          | inl b ↦ rw (h, g, a, b) (listed-Announces s contract q (set_text q.cursor))
        ]
      ]
    ]
  ]

  -- An answer with an offset shows the rows of its limit and offset under the query's filters, and
  -- says that there is a next page exactly when the page at the next offset is not empty.
  pub has_next_page_iff :
      (s : Store) (contract : String) (q : Query) (rows : List Row) (info : OffsetInfo)
      → get_history is_date decode encode contract q s ≡ offset_page rows info
      → (rows ≡ get_transaction_history s contract info.limit info.offset (filters_of q))
        × ((info.has_next_page ≡ true) ↔ (
            get_transaction_history s contract info.limit (info.offset + info.limit) (filters_of q)
            ≢ []))
  has_next_page_iff s contract q rows info h =
      subst (Announces s contract q) h (get_history-Announces s contract q)

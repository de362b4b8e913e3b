-- ===== src/SecondaryRoyalty/Distributed.antt =====
-- What `POST /distribute` of backend/src/routes/secondary-royalty.js pays out, and leaves.
use stellar_royalty_splitter.Prelude.{
  ℕ, ◌+◌, ◌≤◌, ◌≡◌, refl, sym, ◌∙◌, String, false, ◌==◌, nat_eq, string_eq, keep, take, List, [],
  ◌∷◌, some, none, true, Bool, ap, update_where, length, length-take, Bool-cases, inl, inr, arith,
}
use mathlib.Core.Path.{subst}
use mathlib.Core.Bool.{true≢false}
use stellar_royalty_splitter.Prelude.Text.{Text}
use stellar_royalty_splitter.Prelude.TextOrder.{
  text_less, text_less_asym, text_less_trans, text_cases,
}
use stellar_royalty_splitter.Prelude.Sorting.{sort, WeakOrder}
use stellar_royalty_splitter.Audit.{add_audit_log}
use stellar_royalty_splitter.SecondaryRoyalty.Store.{
  Store, SecondarySale, is_sale, is_one_of, later, marked, get_secondary_sales,
  mark_sales_distributed,
}
use stellar_royalty_splitter.SecondaryRoyalty.Routes.{
  World, failed, distributed_to, pending_only, Distribution, nothing_to_pay, builds,
  begin_distribute, finish_distribute,
}
use stellar_royalty_splitter.SecondaryRoyalty.Total.{
  royalties, ids_of, DistinctSales, royalties-update_where,
}

later_not_between :
    (x y z : SecondarySale) → later z y ≡ false → later y x ≡ false → later z x ≡ false
later_not_between x y z h g = elim (Bool-cases (later z x)) [
  | inr no_later ↦ no_later
  | inl is_later ↦ elim (text_cases x.timestamp y.timestamp) [
    | inl a ↦ absurd (true≢false (sym a ∙ g))
    | inr (inl a) ↦
        absurd (true≢false (sym is_later ∙ subst (λ t. text_less t z.timestamp ≡ false) (sym a) h))
    | inr (inr a) ↦
        absurd
          (true≢false (sym (text_less_trans y.timestamp x.timestamp z.timestamp a is_later) ∙ h))
  ]
]

later-WeakOrder : WeakOrder later
later-WeakOrder = record {
  before_asym = λ x y h. text_less_asym x.timestamp y.timestamp h;
  not_between = later_not_between;
}

marked_not_pending :
    (contract : String) (s : SecondarySale) → is_sale contract pending_only (marked s) ≡ false
unfolding is_sale
marked_not_pending contract s = elim (Bool-cases (s.contract_id == contract)) [
  | inl same ↦ rw same refl
  | inr other ↦ rw other refl
]

-- The royalties of the sales of a contract that are not distributed.
abbrev pub pending_royalties : String → World → ℕ
pending_royalties contract w = royalties (keep (is_sale contract pending_only) w.royalties.sales)

-- The sales that a distribution reads.
abbrev chosen : String → World → List SecondarySale
chosen contract w = take 1000 (sort later (keep (is_sale contract pending_only) w.royalties.sales))

abbrev is_waiting : Distribution → Bool
is_waiting nothing_to_pay = false
is_waiting (builds id sales) = true

abbrev sales_read : Distribution → List SecondarySale
sales_read nothing_to_pay = []
sales_read (builds id sales) = sales

begin_distribute_builds :
    (contract wallet : String) (now : Text) (w : World) (id : ℕ) (pending : List SecondarySale)
    → (begin_distribute contract wallet now w).0 ≡ builds id pending
    → (pending ≡ chosen contract w)
      × ((begin_distribute contract wallet now w).1.royalties ≡ w.royalties)
      × (1 ≤ length pending)
unfolding begin_distribute get_secondary_sales
begin_distribute_builds contract wallet now w id pending h =
    elim (Bool-cases (length (chosen contract w) == 0)) [
      | inl nothing ↦
          (let none_read : nothing_to_pay ≡ builds id pending = rw nothing at h in
            absurd (true≢false (sym (ap is_waiting none_read))))
      | inr some_sales ↦
          let read : builds w.history.next_id (chosen contract w) ≡ builds id pending =
            rw some_sales at h in
          let same : chosen contract w ≡ pending = ap sales_read read in
          (sym same, rw some_sales refl, subst (λ sales. 1 ≤ length sales) same (ground arith))
    ]

finish_distribute_pays :
    (contract wallet xdr : String) (now : Text) (id : ℕ) (pending : List SecondarySale) (w : World)
    → let (reply, after) = finish_distribute (some xdr) contract wallet now id pending w in
      (reply ≡ distributed_to xdr id (length pending) (royalties pending))
      × (after.royalties.sales ≡ update_where (is_one_of (ids_of pending)) marked w.royalties.sales)
unfolding finish_distribute mark_sales_distributed add_audit_log
finish_distribute_pays contract wallet xdr now id pending w = (refl, refl)

abbrev marked_sales : List SecondarySale → List SecondarySale → List SecondarySale
marked_sales paid sales = update_where (is_one_of (ids_of paid)) marked sales

abbrev pending_sum : String → List SecondarySale → ℕ
pending_sum contract sales = royalties (keep (is_sale contract pending_only) sales)

-- What marking the sales that were read does to the pending royalties.
marked_royalties :
    (contract : String) (w : World)
    → DistinctSales w.royalties.sales
    → pending_royalties contract w
      ≡ royalties (chosen contract w)
        + pending_sum contract (marked_sales (chosen contract w) w.royalties.sales)
marked_royalties contract w distinct =
    royalties-update_where (is_sale contract pending_only) later later-WeakOrder
      (marked_not_pending contract) 1000 w.royalties.sales distinct

-- The same, for the sales that a distribution has read and the rows that it leaves.
paid_royalties :
    (contract : String) (w : World) (pending left : List SecondarySale)
    → DistinctSales w.royalties.sales
    → pending ≡ chosen contract w
    → left ≡ marked_sales pending w.royalties.sales
    → pending_royalties contract w ≡ royalties pending + pending_sum contract left
paid_royalties contract w pending left distinct read stored =
    subst (λ rows. pending_royalties contract w ≡ royalties pending + pending_sum contract rows)
      (sym stored)
      (subst
        (λ paid.
          pending_royalties contract w
          ≡ royalties paid + pending_sum contract (marked_sales paid w.royalties.sales))
        (sym read) (marked_royalties contract w distinct))

-- A distribution, while whose transaction is built no other request writes a sale: it is answered by the
-- number and the royalties of the sales that it has read, 1 to 1000 of them, and the contract's pending
-- royalties lose exactly this sum; if its transaction is not built, they lose nothing. No id stands
-- twice.
pub distribute_conserves :
    (contract wallet xdr : String) (now done : Text) (w between : World) (id : ℕ)
    (pending : List SecondarySale)
    → DistinctSales w.royalties.sales
    → (begin_distribute contract wallet now w).0 ≡ builds id pending
    → between.royalties ≡ w.royalties
    → let (reply, after) = finish_distribute (some xdr) contract wallet done id pending between in
      let (refusal, unpaid) = finish_distribute none contract wallet done id pending between in
      (1 ≤ length pending)
      × (length pending ≤ 1000)
      × (reply ≡ distributed_to xdr id (length pending) (royalties pending))
      × (pending_royalties contract w ≡ royalties pending + pending_royalties contract after)
      × (refusal ≡ failed)
      × (pending_royalties contract unpaid ≡ pending_royalties contract w)
unfolding finish_distribute
distribute_conserves contract wallet xdr now done w between id pending distinct begun same =
    let (read, kept, some_sales) = begin_distribute_builds contract wallet now w id pending begun in
    let (answer, stored) = finish_distribute_pays contract wallet xdr done id pending between in
    let sold : between.royalties.sales ≡ w.royalties.sales = ap (λ r. r.sales) same in
    (
      some_sales,
      subst (λ sales. length sales ≤ 1000) (sym read)
          (length-take 1000 (sort later (keep (is_sale contract pending_only) w.royalties.sales))),
      answer,
      paid_royalties contract w pending _ distinct read (stored ∙ ap (marked_sales pending) sold),
      refl,
      ap (pending_sum contract) sold,
    )

marked_twice :
    (p : SecondarySale → Bool) (sales : List SecondarySale)
    → ((s : SecondarySale) → p (marked s) ≡ p s)
    → update_where p marked (update_where p marked sales) ≡ update_where p marked sales
marked_twice p [] h = refl
marked_twice p (s ∷ sales) h = elim (Bool-cases (p s)) [
  | inl is ↦ rw (is, h s, is) (ap (λ rest. marked s ∷ rest) (marked_twice p sales h))
  | inr is_not ↦ rw (is_not, is_not) (ap (λ rest. s ∷ rest) (marked_twice p sales h))
]

-- Two distributions that both begin before one of them is built, with no other request that writes a
-- sale, pay the same sales: both are answered by the same number and royalties, but the pending
-- royalties lose this sum only once. No id stands twice.
pub distribute_races :
    (contract wallet other xdr xdr' : String) (now then done : Text) (w between : World)
    (id id' : ℕ) (pending pending' : List SecondarySale)
    → DistinctSales w.royalties.sales
    → (begin_distribute contract wallet now w).0 ≡ builds id pending
    → (begin_distribute contract other then (begin_distribute contract wallet now w).1).0
      ≡ builds id' pending'
    → between.royalties ≡ w.royalties
    → let (reply, middle) = finish_distribute (some xdr) contract wallet done id pending between in
      let (reply', after) = finish_distribute (some xdr') contract other done id' pending' middle in
      (reply ≡ distributed_to xdr id (length pending) (royalties pending))
      × (reply' ≡ distributed_to xdr' id' (length pending) (royalties pending))
      × (pending_royalties contract w ≡ royalties pending + pending_royalties contract after)
distribute_races contract wallet other xdr xdr' now then done w between id id' pending pending'
      distinct begun begun' same =
    let w1 = (begin_distribute contract wallet now w).1 in
    let (read, kept, some_sales) = begin_distribute_builds contract wallet now w id pending begun in
    let (read', kept', some') =
      begin_distribute_builds contract other then w1 id' pending' begun' in
    let equal : pending' ≡ pending =
      read'
      ∙ ap (λ (r : Store). take 1000 (sort later (keep (is_sale contract pending_only) r.sales)))
          kept
      ∙ sym read in
    let middle = (finish_distribute (some xdr) contract wallet done id pending between).1 in
    let (answer, stored) = finish_distribute_pays contract wallet xdr done id pending between in
    let (answer', stored') = finish_distribute_pays contract other xdr' done id' pending' middle in
    let sold : between.royalties.sales ≡ w.royalties.sales = ap (λ r. r.sales) same in
    (
      answer,
      subst
          (λ sales.
            (finish_distribute (some xdr') contract other done id' pending' middle).0
            ≡ distributed_to xdr' id' (length sales) (royalties sales))
          equal answer',
      paid_royalties contract w pending _ distinct read (
          stored'
          ∙ ap (λ paid. marked_sales paid middle.royalties.sales) equal
          ∙ ap (marked_sales pending) (stored ∙ ap (marked_sales pending) sold)
          ∙ marked_twice (is_one_of (ids_of pending)) w.royalties.sales (λ s. refl)),
    )

-- ===== src/Dedup/Single.antt =====
-- As long as no entry times out, one request runs for each key, and every waiter waits for one that
-- still runs.
use stellar_royalty_splitter.Prelude.{
  ℕ, suc, ◌≤◌, ◌≡◌, ◌≢◌, refl, sym, ap, ◌∙◌, String, false, Option, none, some, ◌==◌, nat_eq,
  string_eq, Bool-cases, Option-cases, inl, inr, arith, eq_of_==, or_else, Key,
}
use stellar_royalty_splitter.Prelude.Map.{Map, get, set, delete}
use stellar_royalty_splitter.Prelude.Map.Laws.{get-set, get-delete}
use stellar_royalty_splitter.Prelude.Map.Cases.{get-set_cases, get-delete_cases}
use mathlib.Core.Path.{subst}
use stellar_royalty_splitter.Dedup.Requests.{
  Body, World, with_key, without_key, dedup, intercepted_json,
}

-- A key is in flight exactly with the request that runs for it, and the numbers grow.
pub record Single (in_flight : Map String ℕ) (owners : Map ℕ String) (next : ℕ) : Type 0 where
  pub flying : (k : String) (p : ℕ) → get k in_flight ≡ some p → get p owners ≡ some k
  pub owning : (p : ℕ) (k : String) → get p owners ≡ some k → get k in_flight ≡ some p
  pub fresh : (p : ℕ) → next ≤ p → get p owners ≡ none

-- Two keys that stand for different things are different.
apart :
    {K V : Type 0} ⦃e : Key K⦄ (m : Map K V) (j k : K) (a b : Option V)
    → get j m ≡ a
    → get k m ≡ b
    → a ≢ b
    → (j == k) ≡ false
apart m j k a b is_j is_k other = elim (Bool-cases (j == k)) [
  | inr differs ↦ differs
  | inl same ↦
      absurd (other (sym is_j ∙ subst (λ i. get j m ≡ get i m) (eq_of_== j k same) refl ∙ is_k))
]

same_key : {K : Type 0} ⦃e : Key K⦄ (j k : K) → j ≡ k → (j == k) ≡ false → ⊥
same_key ⦃e⦄ j k same other = ground (arith, (e.same_iff j k).1 same, other)

insert-Single :
    (in_flight : Map String ℕ) (owners : Map ℕ String) (next : ℕ) (key : String)
    → Single in_flight owners next
    → get key in_flight ≡ none
    → Single (set key next in_flight) (set next key owners) (suc next)
insert-Single in_flight owners next key h free = record {
  flying = λ k p is. elim (get-set_cases k key next p in_flight is) [
    | inl (same, eq) ↦ rw (get-set p next key owners) (ground (arith, same, eq))
    | inr (other, there) ↦
        let running = h.flying k p there in
        let old : next ≢ p = λ eq. ground (arith, h.fresh p (omega (arith, eq)), running) in
        rw (get-set p next key owners) (ground (arith, old, running))
  ];
  owning = λ p k is. elim (get-set_cases p next key k owners is) [
    | inl (same, eq) ↦
        rw (get-set k key next in_flight) (ground (arith, same, eq, string_eq.same_iff key k))
    | inr (other, there) ↦
        let flies = h.owning p k there in
        let differs = apart in_flight key k none (some p) free flies (λ eq. cc) in
        rw (get-set k key next in_flight) (ground (arith, differs, flies))
  ];
  fresh = λ p le. ground (arith, get-set p next key owners, h.fresh p (omega arith));
}

delete-Single :
    (in_flight : Map String ℕ) (owners : Map ℕ String) (next owner : ℕ) (key : String)
    → Single in_flight owners next
    → get owner owners ≡ some key
    → Single (delete key in_flight) (delete owner owners) next
delete-Single in_flight owners next owner key h is = record {
  flying = λ k p there.
      let (other, old) = get-delete_cases k key p in_flight there in
      let running = h.flying k p old in
      let differs =
        apart owners owner p (some key) (some k) is running
          (λ eq. same_key key k (ap (λ o. or_else o k) eq) other) in
      rw (get-delete p owner owners) (ground (arith, differs, running));
  owning = λ p k there.
      let (other, old) = get-delete_cases p owner k owners there in
      let flies = h.owning p k old in
      let differs =
        apart in_flight key k (some owner) (some p) (h.owning owner key is) flies
          (λ eq. same_key owner p (ap (λ o. or_else o p) eq) other) in
      rw (get-delete k key in_flight) (ground (arith, differs, flies));
  fresh = λ p le. ground (arith, get-delete p owner owners, h.fresh p le);
}

module _ {B : Type 0} where
  abbrev pub IsSingle : World B → Type 0
  IsSingle w = Single w.in_flight w.owners w.next

  with_key-IsSingle :
      (key : String) (o : Option ℕ) (w : World B)
      → IsSingle w
      → get key w.in_flight ≡ o
      → IsSingle (with_key key o w).1
  with_key-IsSingle key (some owner) w h is = record {
    flying = h.flying;
    owning = h.owning;
    fresh = λ p le. h.fresh p (omega arith);
  }
  with_key-IsSingle key none w h is = insert-Single w.in_flight w.owners w.next key h is

  without_key-IsSingle : (w : World B) → IsSingle w → IsSingle (without_key w).1
  without_key-IsSingle w h = record {
    flying = h.flying;
    owning = h.owning;
    fresh = λ p le. h.fresh p (omega arith);
  }

  pub dedup-IsSingle :
      (build_dedup_key : Body → String) (body : Body) (w : World B)
      → IsSingle w
      → IsSingle (dedup build_dedup_key body w).1
  unfolding dedup
  dedup-IsSingle build_dedup_key body w h = elim (Option-cases body.contract_id) [
    | inl absent ↦ rw (absent, dedup) (without_key-IsSingle w h)
    | inr (c, is) ↦ elim (Bool-cases (c == "")) [
      | inl empty ↦ rw (is, dedup, empty) (without_key-IsSingle w h)
      | inr some_id ↦ rw (is, dedup, some_id) (with_key-IsSingle (build_dedup_key body) _ w h refl)
    ]
  ]

  pub intercepted_json-IsSingle :
      (request status : ℕ) (body : B) (w : World B)
      → IsSingle w
      → get request w.owners ≡ get request w.keys
      → IsSingle (intercepted_json request status body w)
  unfolding intercepted_json
  intercepted_json-IsSingle request status body w h same =
      elim (Option-cases (get request w.keys)) [
        | inl absent ↦ rw (absent, intercepted_json) h
        | inr (key, is) ↦
            rw (is, intercepted_json)
              (delete-Single w.in_flight w.owners w.next request key h (same ∙ is))
      ]

-- ===== src/Dedup/Attended.antt =====
-- What arrivals and responses lead to, as long as no entry times out.
use stellar_royalty_splitter.Prelude.{
  ℕ, ◌≡◌, refl, sym, ap, ◌∙◌, String, true, Option, none, some, List, [], ◌∷◌, ◌++◌, ◌==◌, nat_eq,
  string_eq, All, is_some, Bool-cases, Option-cases, inl, inr, arith, or_else,
}
use stellar_royalty_splitter.Prelude.Map.{Map, get, set, delete}
use stellar_royalty_splitter.Prelude.Map.Laws.{get-set, get-delete}
use stellar_royalty_splitter.Dedup.Requests.{
  Body, World, Waiter, others, with_key, dedup, intercepted_json,
}
use stellar_royalty_splitter.Dedup.Single.{IsSingle, dedup-IsSingle, intercepted_json-IsSingle}

-- Every waiter waits for a request that still runs.
abbrev pub Attended : Map ℕ String → List Waiter → Type 0
Attended owners waiting = All (λ x. is_some (get x.owner owners) ≡ true) waiting

append-Attended :
    (owners : Map ℕ String) (waiting : List Waiter) (x : Waiter)
    → Attended owners waiting
    → is_some (get x.owner owners) ≡ true
    → Attended owners (waiting ++ (x ∷ []))
append-Attended owners [] x h here = (here, tt)
append-Attended owners (y ∷ waiting) x h here = (h.0, append-Attended owners waiting x h.1 here)

set-Attended :
    (owners : Map ℕ String) (n : ℕ) (key : String) (waiting : List Waiter)
    → Attended owners waiting
    → Attended (set n key owners) waiting
set-Attended owners n key [] h = tt
set-Attended owners n key (y ∷ waiting) h =
    (rw (get-set y.owner n key owners) (ground (arith, h.0)), set-Attended owners n key waiting h.1)

others-Attended :
    (owners : Map ℕ String) (n : ℕ) (waiting : List Waiter)
    → Attended owners waiting
    → Attended (delete n owners) (others n waiting)
others-Attended owners n [] h = tt
others-Attended owners n (y ∷ waiting) h =
    let rest = others-Attended owners n waiting h.1 in
    elim (Bool-cases (y.owner == n)) [
      | inl same ↦ rw same rest
      | inr other ↦
          let here : is_some (get y.owner (delete n owners)) ≡ true =
            rw (get-delete y.owner n owners) (ground (arith, h.0, other)) in
          rw other (here, rest)
    ]

module _ {B : Type 0} where
  abbrev pub empty : World B
  empty = record {
    in_flight = [];
    owners = [];
    keys = [];
    waiting = [];
    sent = [];
    next = 0;
    hits = 0;
    misses = 0;
  }

  with_key-Attended :
      (key : String) (o : Option ℕ) (w : World B)
      → IsSingle w
      → get key w.in_flight ≡ o
      → Attended w.owners w.waiting
      → Attended (with_key key o w).1.owners (with_key key o w).1.waiting
  with_key-Attended key (some owner) w single is h =
      append-Attended w.owners w.waiting _ h (rw (single.flying key owner is))
  with_key-Attended key none w single is h = set-Attended w.owners w.next key w.waiting h

  dedup-Attended :
      (build_dedup_key : Body → String) (body : Body) (w : World B)
      → IsSingle w
      → Attended w.owners w.waiting
      → Attended (dedup build_dedup_key body w).1.owners (dedup build_dedup_key body w).1.waiting
  unfolding dedup
  dedup-Attended build_dedup_key body w single h = elim (Option-cases body.contract_id) [
    | inl absent ↦ rw (absent, dedup) h
    | inr (c, is) ↦ elim (Bool-cases (c == "")) [
      | inl empty ↦ rw (is, dedup, empty) h
      | inr some_id ↦
          rw (is, dedup, some_id) (with_key-Attended (build_dedup_key body) _ w single refl h)
    ]
  ]

  intercepted_json-Attended :
      (request status : ℕ) (body : B) (w : World B)
      → Attended w.owners w.waiting
      → Attended
          (intercepted_json request status body w).owners
          (intercepted_json request status body w).waiting
  unfolding intercepted_json
  intercepted_json-Attended request status body w h = elim (Option-cases (get request w.keys)) [
    | inl absent ↦ rw (absent, intercepted_json) h
    | inr (key, is) ↦ rw (is, intercepted_json) (others-Attended w.owners request w.waiting h)
  ]

-- The worlds that arrivals and responses lead to, where no request responds twice: a request with a key
-- responds while it runs.
pub data Untimed {B : Type 0} (build_dedup_key : Body → String) : World B → Type 0 where
  at_start : Untimed build_dedup_key empty
  arrived :
      {w : World B}
      → Untimed build_dedup_key w
      → (body : Body) → Untimed build_dedup_key (dedup build_dedup_key body w).1
  responded :
      {w : World B}
      → Untimed build_dedup_key w
      → (request status : ℕ) (body : B) → get request w.owners ≡ get request w.keys
      → Untimed build_dedup_key (intercepted_json request status body w)

runs_once_both :
    {B : Type 0} (build_dedup_key : Body → String) (w : World B)
    → Untimed build_dedup_key w
    → IsSingle w × Attended w.owners w.waiting
unfolding get
runs_once_both build_dedup_key w at_start =
    (record { flying = λ k p is. cc; owning = λ p k is. cc; fresh = λ p le. refl }, tt)
runs_once_both build_dedup_key _ (arrived {w = w} path body) =
    let (single, attended) = runs_once_both build_dedup_key w path in
    (
      dedup-IsSingle build_dedup_key body w single,
      dedup-Attended build_dedup_key body w single attended,
    )
runs_once_both build_dedup_key _ (responded {w = w} path request status body first) =
    let (single, attended) = runs_once_both build_dedup_key w path in
    (
      intercepted_json-IsSingle request status body w single first,
      intercepted_json-Attended request status body w attended,
    )

-- As long as no entry times out and no request responds twice, at most one request runs for each key, and every request that waits
-- waits for one that still runs, whatever arrivals and responses there have been otherwise.
pub dedup_runs_once :
    {B : Type 0} (build_dedup_key : Body → String) (w : World B)
    → Untimed build_dedup_key w
    → ((p q : ℕ) (key : String) → get p w.owners ≡ some key → get q w.owners ≡ some key → p ≡ q)
      × Attended w.owners w.waiting
dedup_runs_once build_dedup_key w path =
    let (single, attended) = runs_once_both build_dedup_key w path in
    (
      λ p q key is_p is_q.
          ap (λ o. or_else o q) (sym (single.owning p key is_p) ∙ single.owning q key is_q),
      attended,
    )

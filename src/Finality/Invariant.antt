-- ===== src/Finality/Invariant.antt =====
-- The invariant of the trackers: every loop works on the pending row of its transaction, no two
-- loops work on one row, and a row's final status is its status.
use stellar_royalty_splitter.Prelude.{
  ℕ, suc, ◌≤◌, ◌≡◌, refl, sym, ap, ◌∙◌, true, false, Option, none, some, [], ◌∷◌, ◌==◌, nat_eq, inl,
  inr, arith, is_some, ==_self, ◌≢◌,
}
use stellar_royalty_splitter.Prelude.Map.{Map, get, set, delete, modify}
use mathlib.Core.Path.{subst}
use stellar_royalty_splitter.Prelude.Map.Cases.{get-set_cases, get-delete_cases, get-modify_cases}
use stellar_royalty_splitter.Prelude.Map.Laws.{
  get-set, get-delete, get-modify_other, get-modify_absent,
}
use stellar_royalty_splitter.Finality.Store.{Status, pending, FinalityRecord, Rows}
use stellar_royalty_splitter.Finality.Tracker.{Loop, World, abort}

-- The fields of a row agree with its status.
abbrev pub Agrees : Status → FinalityRecord → Type 0
Agrees pending r = (r.final_status ≡ none) × (r.final_status_at ≡ none)
Agrees s r =
    (r.final_status ≡ some s) × (is_some r.final_status_at ≡ true) × (r.next_poll_at ≡ none)

abbrev pub status : Option FinalityRecord → Option Status
status none = none
status (some r) = some r.status

abbrev pub status_of : ℕ → World → Option Status
status_of id w = status (get id w.rows)

-- The invariant of the table, the loops and the next number of a loop.
pub record Sound (rows : Rows) (loops : Map ℕ Loop) (next : ℕ) : Type 0 where
  pub agrees : (id : ℕ) (r : FinalityRecord) → get id rows ≡ some r → Agrees r.status r
  pub is_pending :
      (n : ℕ) (l : Loop) → get n loops ≡ some l → status (get l.transaction_id rows) ≡ some pending
  pub alone :
      (n m : ℕ) (l k : Loop)
      → get n loops ≡ some l
      → get m loops ≡ some k
      → l.transaction_id ≡ k.transaction_id
      → n ≡ m
  pub unused : (n : ℕ) → next ≤ n → get n loops ≡ none

abbrev pub IsValid : World → Type 0
IsValid w = Sound w.rows w.loops w.next_loop

modify-Agrees :
    (rows : Rows) (id : ℕ) (f : FinalityRecord → FinalityRecord)
    → ((j : ℕ) (r : FinalityRecord) → get j rows ≡ some r → Agrees r.status r)
    → ((r : FinalityRecord) → get id rows ≡ some r → Agrees (f r).status (f r))
    → (j : ℕ) (r : FinalityRecord) → get j (modify id f rows) ≡ some r
    → Agrees r.status r
modify-Agrees rows id f h changed j r is = elim (get-modify_cases j id f r rows is) [
  | inl (v, same, there, becomes) ↦
      subst (λ q. Agrees q.status q) becomes
        (changed v (subst (λ i. get i rows ≡ some v) (sym same) there))
  | inr (other, there) ↦ h j r there
]

pub modify-status :
    (rows : Rows) (id : ℕ) (f : FinalityRecord → FinalityRecord)
    → ((r : FinalityRecord) → (f r).status ≡ r.status)
    → (j : ℕ) → status (get j (modify id f rows)) ≡ status (get j rows)
unfolding get modify
modify-status [] id f keeps j = refl
modify-status ((i, r) ∷ rows) id f keeps j =
    ground (arith, keeps r, modify-status rows id f keeps j)

module _ {rows : Rows} {loops : Map ℕ Loop} {next : ℕ} (h : Sound rows loops next) where
  -- The loop `n` gives its row a final status, and ends.
  pub settle-Sound :
      (n : ℕ) (l : Loop) (f : FinalityRecord → FinalityRecord)
      → get n loops ≡ some l
      → ((r : FinalityRecord) → Agrees (f r).status (f r))
      → Sound (modify l.transaction_id f rows) (delete n loops) next
  settle-Sound n l f here final = record {
    agrees = modify-Agrees rows l.transaction_id f h.agrees (λ r is. final r);
    is_pending = λ m k is.
        let (other, there) = get-delete_cases m n k loops is in
        let differs : (l.transaction_id == k.transaction_id) ≡ false =
          ground (arith, h.alone n m l k here there) in
        rw (get-modify_other k.transaction_id l.transaction_id f rows differs)
          (h.is_pending m k there);
    alone = λ m o k p is_m is_o.
        h.alone m o k p (get-delete_cases m n k loops is_m).1 (get-delete_cases o n p loops is_o).1;
    unused = λ m le. ground (arith, get-delete m n loops, h.unused m le);
  }

  -- Every loop of the second map goes on with the transaction of the first.
  pub replace-Sound :
      (loops' : Map ℕ Loop)
      → ((n : ℕ) (k : Loop)
          → get n loops' ≡ some k
          → (l : Loop) × (get n loops ≡ some l) × (l.transaction_id ≡ k.transaction_id))
      → ((n : ℕ) → get n loops ≡ none → get n loops' ≡ none)
      → Sound rows loops' next
  replace-Sound loops' was none_new = record {
    agrees = h.agrees;
    is_pending = λ m k is.
        let (l, there, same) = was m k is in
        subst (λ i. status (get i rows) ≡ some pending) same (h.is_pending m l there);
    alone = λ m o k p is_m is_o eq.
        let (l, l_there, l_same) = was m k is_m in
        let (q, q_there, q_same) = was o p is_o in
        h.alone m o l q l_there q_there (l_same ∙ eq ∙ sym q_same);
    unused = λ m le. none_new m (h.unused m le);
  }

  -- The loop `n` ends without a word.
  pub end-Sound : (n : ℕ) → Sound rows (delete n loops) next
  end-Sound n =
      replace-Sound (delete n loops) (λ m k is. (k, (get-delete_cases m n k loops is).1, refl))
        (λ m absent. ground (arith, get-delete m n loops))

  -- The loop `n` goes on with the same transaction.
  pub continue-Sound :
      (n : ℕ) (l l' : Loop)
      → get n loops ≡ some l
      → l.transaction_id ≡ l'.transaction_id
      → Sound rows (set n l' loops) next
  continue-Sound n l l' here same =
      replace-Sound (set n l' loops)
        (λ m k is. elim (get-set_cases m n l' k loops is) [
          | inl (eq, becomes) ↦ (
            l,
            subst (λ i. get i loops ≡ some l) eq here,
            same ∙ ap (λ q. q.transaction_id) becomes,
          )
          | inr (other, there) ↦ (k, there, refl)
        ])
        (λ m absent. ground (arith, get-set m n l' loops))

  -- A loop is told to abort.
  pub abort-Sound : (n : ℕ) → Sound rows (modify n abort loops) next
  abort-Sound n =
      replace-Sound (modify n abort loops)
        (λ m k is. elim (get-modify_cases m n abort k loops is) [
          | inl (l, eq, there, becomes) ↦ (l, there, ap (λ q. q.transaction_id) becomes)
          | inr (other, there) ↦ (k, there, refl)
        ])
        (λ m absent. get-modify_absent m n abort loops absent)

  -- A row keeps its status.
  pub touch-Sound :
      (id : ℕ) (f : FinalityRecord → FinalityRecord)
      → ((r : FinalityRecord) → (f r).status ≡ r.status)
      → ((r : FinalityRecord) → get id rows ≡ some r → Agrees (f r).status (f r))
      → Sound (modify id f rows) loops next
  touch-Sound id f keeps fine = record {
    agrees = modify-Agrees rows id f h.agrees fine;
    is_pending = λ m k is. modify-status rows id f keeps k.transaction_id ∙ h.is_pending m k is;
    alone = h.alone;
    unused = h.unused;
  }

  inserted-alone :
      (id : ℕ) (l : Loop)
      → get id rows ≡ none
      → l.transaction_id ≡ id
      → (m : ℕ) (k : Loop) → get m loops ≡ some k
      → l.transaction_id ≢ k.transaction_id
  inserted-alone id l absent is m k there same =
      ground (arith, subst (λ i. get i rows ≡ none) (sym is ∙ same) absent, h.is_pending m k there)

  -- A new row and its loop.
  pub insert-Sound :
      (id : ℕ) (r : FinalityRecord) (l : Loop)
      → get id rows ≡ none
      → r.status ≡ pending
      → Agrees r.status r
      → l.transaction_id ≡ id
      → Sound (set id r rows) (set next l loops) (suc next)
  insert-Sound id r l absent fresh fine is = record {
    agrees = λ j q there. elim (get-set_cases j id r q rows there) [
      | inl (eq, becomes) ↦ subst (λ t. Agrees t.status t) becomes fine
      | inr (other, old) ↦ h.agrees j q old
    ];
    is_pending = λ m k there. elim (get-set_cases m next l k loops there) [
      | inl (eq, becomes) ↦
          subst (λ q. status (get q.transaction_id (set id r rows)) ≡ some pending) becomes
            (rw (is, get-set id id r rows, ==_self id, fresh))
      | inr (other, old) ↦
          let apart = inserted-alone id l absent is m k old in
          rw (get-set k.transaction_id id r rows) (ground (arith, h.is_pending m k old))
    ];
    alone = λ m o k p is_m is_o eq. elim (get-set_cases m next l k loops is_m) [
      | inl (m_eq, m_becomes) ↦ elim (get-set_cases o next l p loops is_o) [
        | inl (o_eq, o_becomes) ↦ sym m_eq ∙ o_eq
        | inr (o_other, o_old) ↦
            absurd
              (inserted-alone id l absent is o p o_old (ap (λ q. q.transaction_id) m_becomes ∙ eq))
      ]
      | inr (m_other, m_old) ↦ elim (get-set_cases o next l p loops is_o) [
        | inl (o_eq, o_becomes) ↦ absurd (
            inserted-alone id l absent is m k m_old (ap (λ q. q.transaction_id) o_becomes ∙ sym eq))
        | inr (o_other, o_old) ↦ h.alone m o k p m_old o_old eq
      ]
    ];
    unused = λ m le. ground (arith, get-set m next l loops, h.unused m (omega arith));
  }

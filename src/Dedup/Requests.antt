-- ===== src/Dedup/Requests.antt =====
-- backend/src/middleware/dedup.js as a state machine. A request is a number, given at its arrival, and
-- a shared promise is the number of the request that owns it. The hash of the four fields is a
-- parameter. The handler's call of `res.json` and the timer are events; `next` is only ever called
-- without an error here, so that the branch of `wrappedNext` for an error is never taken.
use stellar_royalty_splitter.Prelude.{
  ℕ, suc, ◌+◌, String, Bool, false, not, Option, none, some, List, [], ◌∷◌, ◌++◌, ◌==◌, nat_eq,
  string_eq, if◌then◌else◌, keep, map,
}
use stellar_royalty_splitter.Prelude.Map.{Map, get, set, delete}

-- The fields of a request's body that are read.
pub record Body : Type 0 where
  pub contract_id : Option String
  pub wallet_address : Option String
  pub operation : Option String
  pub token_id : Option String

pub data Reply (B : Type 0) : Type 0 where
  json : ℕ → B → Reply B
  entry_timed_out : Reply B

pub record Waiter : Type 0 where
  pub request : ℕ
  pub owner : ℕ

pub record World (B : Type 0) : Type 0 where
  pub in_flight : Map String ℕ
  -- The requests that run, and whose `res.json` has not been called.
  pub owners : Map ℕ String
  -- The key that the interceptor of a request holds, which it keeps for good.
  pub keys : Map ℕ String
  pub waiting : List Waiter
  pub sent : List (ℕ × Reply B)
  pub next : ℕ
  pub hits : ℕ
  pub misses : ℕ

abbrev pub is_of : ℕ → Waiter → Bool
is_of owner w = w.owner == owner

abbrev pub answers : {B : Type 0} → ℕ → Reply B → List Waiter → List (ℕ × Reply B)
answers owner reply waiting = map (λ w. (w.request, reply)) (keep (is_of owner) waiting)

abbrev pub others : ℕ → List Waiter → List Waiter
others owner waiting = keep (λ w. not (is_of owner w)) waiting

-- Whether the handler runs for the request.
pub data Passed : Type 0 where
  runs : Passed
  waits : Passed

abbrev pub without_key : {B : Type 0} → World B → Passed × World B
without_key w = (runs, record w { next = suc w.next; misses = w.misses + 1 })

-- A request with a key, by what is in flight under it.
abbrev pub with_key : {B : Type 0} → String → Option ℕ → World B → Passed × World B
with_key key (some owner) w = (
  waits,
  record w {
    waiting = w.waiting ++ (record { request = w.next; owner = owner } ∷ []);
    next = suc w.next;
    hits = w.hits + 1;
  },
)
with_key key none w = (
  runs,
  record w {
    in_flight = set key w.next w.in_flight;
    owners = set w.next key w.owners;
    keys = set w.next key w.keys;
    next = suc w.next;
    misses = w.misses + 1;
  },
)

-- `dedup`; an empty contract id is no contract id.
unfoldable pub dedup : {B : Type 0} → (Body → String) → Body → World B → Passed × World B
dedup build_dedup_key body w = elim body.contract_id [
  | none ↦ without_key w
  | some contract_id ↦
      if contract_id == ""
      then without_key w
      else (let key = build_dedup_key body in with_key key (get key w.in_flight) w)
]

-- The key is deleted whichever request holds it. The waiters of a request are answered by its first
-- response, which leaves none. What Express does with a second response is left out.
abbrev settle : {B : Type 0} → ℕ → Reply B → Option String → World B → World B
settle owner reply none w = record w { sent = (owner, reply) ∷ w.sent }
settle owner reply (some key) w = record w {
  in_flight = delete key w.in_flight;
  owners = delete owner w.owners;
  waiting = others owner w.waiting;
  sent = (owner, reply) ∷ (answers owner reply w.waiting ++ w.sent);
}

-- `interceptedJson`
unfoldable pub intercepted_json : {B : Type 0} → ℕ → ℕ → B → World B → World B
intercepted_json request status body w = settle request (json status body) (get request w.keys) w

abbrev pub is_owner : Option ℕ → ℕ → Bool
is_owner none owner = false
is_owner (some p) owner = p == owner

abbrev expire_key : {B : Type 0} → ℕ → Option String → World B → World B
expire_key owner none w = w
expire_key owner (some key) w =
    if is_owner (get key w.in_flight) owner
    then record w {
      in_flight = delete key w.in_flight;
      waiting = others owner w.waiting;
      sent = answers owner entry_timed_out w.waiting ++ w.sent;
    }
    else w

-- The timer of an owner that has not responded.
unfoldable pub expire_entry : {B : Type 0} → ℕ → World B → World B
expire_entry owner w = expire_key owner (get owner w.owners) w

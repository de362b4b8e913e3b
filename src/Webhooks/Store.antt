-- ===== src/Webhooks/Store.antt =====
-- backend/src/database/webhooks.js. A table is the list of its rows in the order of insertion, a
-- statement is the list function that it states, and an ISO time is its milliseconds. The
-- connection's `lastInsertRowid` is a field: an INSERT sets it, an upsert that updates does not.
use stellar_royalty_splitter.Prelude.{
  ℕ, suc, ◌+◌, String, Bool, true, false, ◌&&◌, Option, none, some, List, [], ◌∷◌, ◌++◌, ltb, leb,
  ◌==◌, nat_eq, string_eq, if◌then◌else◌, keep, update_where, any,
}

pub record Webhook : Type 0 where
  pub id : ℕ
  pub contract_id : String
  pub url : String
  pub enabled : Bool
  pub retry_count : ℕ
  pub next_retry_time : Option ℕ
  pub payload : Option String

-- A row of `webhook_dlq`.
pub record DeadLetter : Type 0 where
  pub id : ℕ
  pub webhook_id : ℕ
  pub url : String
  pub contract_id : String
  pub payload : String
  pub error : String
  pub retry_count : ℕ

pub record Store : Type 0 where
  pub webhooks : List Webhook
  pub dlq : List DeadLetter
  pub next_webhook_id : ℕ
  pub next_dlq_id : ℕ
  pub last_insert_rowid : ℕ
  pub writes : ℕ

abbrev pub has_id : ℕ → Webhook → Bool
has_id id w = w.id == id

-- The key of `UNIQUE(contractId, url)`.
abbrev pub is_target : String → String → Webhook → Bool
is_target contract_id url w = w.contract_id == contract_id && w.url == url

abbrev pub count_write : Store → Store
count_write s = record s { writes = s.writes + 1 }

abbrev pub re_enable : Webhook → Webhook
re_enable w = record w { enabled = true; retry_count = 0; next_retry_time = none }

abbrev pub new_webhook : ℕ → String → String → Webhook
new_webhook id contract_id url = record {
  id = id;
  contract_id = contract_id;
  url = url;
  enabled = true;
  retry_count = 0;
  next_retry_time = none;
  payload = none;
}

-- `registerWebhook`. Insert and update both count one change, so the branch of the source for
-- `result.changes === 0` is never taken, and the connection's last row id is returned.
unfoldable pub register_webhook : String → String → Store → ℕ × Store
register_webhook contract_id url s =
    if any (is_target contract_id url) s.webhooks
    then (
      s.last_insert_rowid,
      count_write
          (record s { webhooks = update_where (is_target contract_id url) re_enable s.webhooks }),
    )
    else (
      s.next_webhook_id,
      count_write (record s {
        webhooks = s.webhooks ++ (new_webhook s.next_webhook_id contract_id url ∷ []);
        next_webhook_id = suc s.next_webhook_id;
        last_insert_rowid = s.next_webhook_id;
      }),
    )

abbrev pub is_listed : String → Webhook → Bool
is_listed contract_id w = w.contract_id == contract_id && w.enabled

-- `listWebhooks`: ids grow with `createdAt`, so the order of insertion is the order asked for.
unfoldable pub list_webhooks : String → Store → List Webhook
list_webhooks contract_id s = keep (is_listed contract_id) s.webhooks

abbrev pub disable : Webhook → Webhook
disable w = record w { enabled = false }

unfoldable pub delete_webhook : String → ℕ → Store → Bool × Store
delete_webhook contract_id webhook_id s =
    let matches = λ (w : Webhook). has_id webhook_id w && w.contract_id == contract_id in
    (
      any matches s.webhooks,
      count_write (record s { webhooks = update_where matches disable s.webhooks }),
    )

abbrev pub rescheduled : ℕ → Option ℕ → Webhook → Webhook
rescheduled retry_count next_retry_time w = record w {
  retry_count = retry_count;
  next_retry_time = next_retry_time;
}

unfoldable pub update_webhook_retry_state : ℕ → ℕ → Option ℕ → Store → Bool × Store
update_webhook_retry_state webhook_id retry_count next_retry_time s = (
  any (has_id webhook_id) s.webhooks,
  count_write (record s {
    webhooks =
        update_where (has_id webhook_id) (rescheduled retry_count next_retry_time) s.webhooks;
  }),
)

abbrev pub rescheduled_with : ℕ → Option ℕ → Option String → Webhook → Webhook
rescheduled_with retry_count next_retry_time payload w = record w {
  retry_count = retry_count;
  next_retry_time = next_retry_time;
  payload = payload;
}

unfoldable pub update_webhook_retry_state_with_payload :
    ℕ → ℕ → Option ℕ → Option String → Store → Bool × Store
update_webhook_retry_state_with_payload webhook_id retry_count next_retry_time payload s = (
  any (has_id webhook_id) s.webhooks,
  count_write (record s {
    webhooks =
        update_where (has_id webhook_id) (rescheduled_with retry_count next_retry_time payload)
          s.webhooks;
  }),
)

-- `next_retry_time IS NOT NULL AND next_retry_time <= ?`
abbrev pub is_past : ℕ → Option ℕ → Bool
is_past now none = false
is_past now (some t) = leb t now

abbrev pub is_due : ℕ → Webhook → Bool
is_due now w = w.enabled && (ltb w.retry_count 4 && is_past now w.next_retry_time)

unfoldable pub get_webhooks_due_for_retry : ℕ → Store → List Webhook
get_webhooks_due_for_retry now s = keep (is_due now) s.webhooks

unfoldable pub move_to_dlq : ℕ → String → String → String → String → ℕ → Store → ℕ × Store
move_to_dlq webhook_id url contract_id payload error retry_count s = (
  s.next_dlq_id,
  count_write (record s {
    dlq =
        s.dlq
        ++ (record {
          id = s.next_dlq_id;
          webhook_id = webhook_id;
          url = url;
          contract_id = contract_id;
          payload = payload;
          error = error;
          retry_count = retry_count;
        }
            ∷ []);
    next_dlq_id = suc s.next_dlq_id;
    last_insert_rowid = s.next_dlq_id;
  }),
)

abbrev pub settled : Webhook → Webhook
settled w = record w { retry_count = 0; next_retry_time = none; payload = none }

unfoldable pub reset_webhook_retry_count : ℕ → Store → Bool × Store
reset_webhook_retry_count webhook_id s = (
  any (has_id webhook_id) s.webhooks,
  count_write (record s { webhooks = update_where (has_id webhook_id) settled s.webhooks }),
)

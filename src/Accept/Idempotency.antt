-- ===== src/Accept/Idempotency.antt =====
-- findMessageReplay and recordMessageIdempotency of messages/accept/idempotency.ts. The table has a
-- unique index on the organization and the key.
pub mod Records
use relayit.Prelude.{
  ℕ, ◌+◌, ◌*◌, String, Bool, true, false, not, ◌&&◌, Option, none, some, List, [], ◌∷◌, ◌++◌,
  Result, ok, err, str_eq, ltb, if◌then◌else◌,
}
use relayit.Prelude.Tables.{find_where, select_where}

pub record IdempotencyRow : Type 0 where
  pub id : String
  pub expires_at : ℕ
  pub key : String
  pub message_id : String
  pub organization_id : String

-- MessageAcceptPersistenceError.operation, as far as this file uses it.
pub data Operation : Type 0 where
  expire_idempotency find_idempotency record_idempotency : Operation

pub data RecordResult : Type 0 where
  recorded : RecordResult
  replay : String → RecordResult

abbrev pub is_key : String → String → IdempotencyRow → Bool
is_key organization_id key row = str_eq row.key key && str_eq row.organization_id organization_id

unfoldable pub find_record :
    Bool → String → String → List IdempotencyRow → Result Operation (Option IdempotencyRow)
find_record query_ok organization_id key rows =
    if query_ok then ok (find_where (is_key organization_id key) rows) else err find_idempotency

unfoldable pub find_message_replay :
    Bool
    → Bool
    → ℕ
    → String
    → String
    → List IdempotencyRow
    → Result Operation (Option String) × List IdempotencyRow
find_message_replay query_ok delete_ok now organization_id key rows =
    elim (find_record query_ok organization_id key rows) [
      | err e ↦ (err e, rows)
      | ok none ↦ (ok none, rows)
      | ok (some row) ↦
          if ltb now row.expires_at
          then (ok (some row.message_id), rows)
          else if delete_ok
          then (ok none, select_where (λ x. not (str_eq x.id row.id)) rows)
          else (err expire_idempotency, rows)
    ]

abbrev pub idempotency_ms : ℕ
idempotency_ms = 24 * 60 * 60 * 1000

abbrev pub new_row : String → ℕ → String → String → String → IdempotencyRow
new_row id now organization_id key message_id = record {
  id = id;
  expires_at = now + idempotency_ms;
  key = key;
  message_id = message_id;
  organization_id = organization_id;
}

-- With the id of the new row, and what other transactions do between the insert and the query. The
-- insert does nothing on a key that is there.
unfoldable pub record_message_idempotency :
    Bool
    → Bool
    → (List IdempotencyRow → List IdempotencyRow)
    → String
    → ℕ
    → String
    → String
    → String
    → List IdempotencyRow
    → Result Operation RecordResult × List IdempotencyRow
record_message_idempotency insert_ok query_ok others id now organization_id key message_id rows =
    if insert_ok
    then elim (find_where (is_key organization_id key) rows) [
      | none ↦ (ok recorded, rows ++ new_row id now organization_id key message_id ∷ [])
      | some _ ↦ (
        elim (find_record query_ok organization_id key (others rows)) [
          | err e ↦ err e
          | ok none ↦ err find_idempotency
          | ok (some row) ↦ ok (replay row.message_id)
        ],
        others rows,
      )
    ]
    else (err record_idempotency, rows)

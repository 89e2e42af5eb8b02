-- ===== src/Accept/Idempotency/Records.antt =====
-- Keys that are recorded and found again: messages/accept/idempotency.ts.
use relayit.Prelude.{
  ℕ, ◌+◌, ◌≡◌, String, Bool, true, false, none, some, List, [], ◌∷◌, ◌++◌, ok, arith, eq_refl, ltb,
  if◌then◌else◌, Option-cases, Bool-cases, inl, inr,
}
use relayit.Prelude.Tables.{find_where, find_where-append}
use relayit.Accept.Idempotency.{
  IdempotencyRow, recorded, replay, is_key, find_record, find_message_replay, idempotency_ms,
  new_row, record_message_idempotency,
}

pub find_where-recorded :
    (insert_ok query_ok : Bool) (others : List IdempotencyRow → List IdempotencyRow) (id : String)
    (now : ℕ) (organization_id key message_id : String) (rows rows' : List IdempotencyRow)
    → record_message_idempotency insert_ok query_ok others id now organization_id key message_id
        rows
      ≡ (ok recorded, rows')
    → find_where (is_key organization_id key) rows'
      ≡ some (new_row id now organization_id key message_id)
unfolding record_message_idempotency find_record
find_where-recorded false query_ok others id now o key message_id rows rows' h = ground (arith, h)
find_where-recorded true query_ok others id now o key message_id rows rows' h =
    elim (Option-cases (find_where (is_key o key) rows)) [
      | inl missing ↦
          let row = new_row id now o key message_id in
          let same : rows ++ row ∷ [] ≡ rows' = ground (arith, missing, h) in
          let appended = find_where-append (is_key o key) rows row missing in
          rw (← same) (ground (arith, appended, eq_refl o, eq_refl key))
      | inr (row, there) ↦ elim (Bool-cases query_ok) [
        | inr refused ↦ ground (arith, there, refused, h)
        | inl asked ↦ elim (Option-cases (find_where (is_key o key) (others rows))) [
          | inl gone ↦ ground (arith, there, asked, gone, h)
          | inr (again, found) ↦ ground (arith, there, asked, found, h)
        ]
      ]
    ]

-- A key that is recorded for a message is found as this message for 24 hours, and as none from
-- then on; and a second record of the key while the first row is there, for whatever message,
-- answers with the first one.
pub find_message_replay-record_message_idempotency :
    (insert_ok query_ok : Bool) (others : List IdempotencyRow → List IdempotencyRow) (id : String)
    (now : ℕ) (organization_id key message_id : String) (rows rows' : List IdempotencyRow)
    → record_message_idempotency insert_ok query_ok others id now organization_id key message_id
        rows
      ≡ (ok recorded, rows')
    → ((later : ℕ)
        → (find_message_replay true true later organization_id key rows').0
          ≡ ok (if ltb later (now + idempotency_ms) then some message_id else none))
      × ((id' message_id' : String) (later : ℕ)
          → record_message_idempotency true true
              (λ r. r)
              id'
              later
              organization_id
              key
              message_id'
              rows'
            ≡ (ok (replay message_id), rows'))
unfolding record_message_idempotency find_message_replay find_record
find_message_replay-record_message_idempotency insert_ok query_ok others id now o key message_id
      rows rows' h =
    let row = new_row id now o key message_id in
    let found : find_where (is_key o key) rows' ≡ some row =
      find_where-recorded insert_ok query_ok others id now o key message_id rows rows' h in
    ((λ later. ground (arith, found)), (λ id' message_id' later. ground (arith, found)))

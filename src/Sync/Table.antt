-- ===== src/Sync/Table.antt =====
-- apps/api/src/store/sync.rs: `upsert_sync_entity` and `get_sync_entity_updated_at` on the table
-- `sync_entities`, whose key is a session with an item; and the loops of `sync_preview` and `sync_commit`.
use wfchat.Base.{
  ℕ, ◌+◌, map_found, ℤ, as_i64, as_u64, leb_int, max_int, Bool, true, false, not, ◌&&◌, List, [],
  ◌∷◌, Option, none, some, Text, codes, any, list_beq, nat_beq, nat_eq, if◌then◌else◌,
}
use wfchat.Base.Results.{Result, ok, err, ◌>>=◌}
use wfchat.Cafe.Room.{OwnerScope}
use wfchat.Sync.{
  SyncItemInput, SyncPreviewResponse, is_valid_item, classify_preview_action, count_action,
}

-- A row of `sync_entities`: the times are whole seconds from 1970 on, as `to_timestamp` takes them.
pub record SyncEntityRow (Payload : Type 0) : Type 0 where
  pub session_id : ℕ
  pub owner_user_id : Option ℕ
  pub item_id : Text
  pub item_type : Text
  pub updated_at : ℤ
  pub deleted_at : Option ℤ
  pub payload : Payload

abbrev pub Rows : Type 0 → Type 0
Rows Payload = List (SyncEntityRow Payload)

abbrev pub is_owned_by : Option ℕ → ℕ → Bool
is_owned_by none user_id = false
is_owned_by (some owner) user_id = nat_beq owner user_id

abbrev pub larger : Option ℤ → ℤ → Option ℤ
larger none n = some n
larger (some m) n = some (max_int m n)

-- `is_timestamp` says which seconds are a timestamp of PostgreSQL: `to_timestamp` fails on all others.
abbrev pub fits_timestamp : (ℤ → Bool) → Option ℕ → Bool
fits_timestamp is_timestamp none = true
fits_timestamp is_timestamp (some seconds) = is_timestamp (as_i64 seconds)

module _ {Payload : Type 0} where
  -- Without an account, the session's rows, whatever their owner is.
  abbrev pub belongs_to : Option ℕ → ℕ → SyncEntityRow Payload → Bool
  belongs_to none session_id row = nat_beq row.session_id session_id
  belongs_to (some user_id) session_id row = is_owned_by row.owner_user_id user_id

  abbrev pub is_row_of : OwnerScope → Text → SyncEntityRow Payload → Bool
  is_row_of owner item_id row =
      belongs_to owner.user_id owner.session_id row && list_beq row.item_id item_id

  -- `max(updated_at)`, none where there is no row.
  unfoldable pub newest_at : OwnerScope → Text → Rows Payload → Option ℤ
  newest_at owner item_id [] = none
  newest_at owner item_id (row ∷ rows) =
      let rest = newest_at owner item_id rows in
      if is_row_of owner item_id row then larger rest row.updated_at else rest

  unfoldable pub get_sync_entity_updated_at : OwnerScope → Text → Rows Payload → Option ℕ
  unfolding newest_at
  get_sync_entity_updated_at owner item_id rows = map_found as_u64 (newest_at owner item_id rows)

  abbrev pub is_older : SyncItemInput Payload → SyncEntityRow Payload → Bool
  is_older item row = leb_int row.updated_at (as_i64 item.updated_at)

  -- The update of every row that passes.
  abbrev pub update_rows :
      (SyncEntityRow Payload → Bool)
      → (SyncEntityRow Payload → SyncEntityRow Payload)
      → Rows Payload
      → Rows Payload
  update_rows p f [] = []
  update_rows p f (row ∷ rows) = (if p row then f row else row) ∷ update_rows p f rows

  abbrev pub has_key : ℕ → Text → SyncEntityRow Payload → Bool
  has_key session_id item_id row = nat_beq row.session_id session_id && list_beq row.item_id item_id

  abbrev pub with_item : SyncItemInput Payload → SyncEntityRow Payload → SyncEntityRow Payload
  with_item item row = record row {
    item_type = item.item_type;
    updated_at = as_i64 item.updated_at;
    deleted_at = map_found as_i64 item.deleted_at;
    payload = item.payload;
  }

  abbrev pub new_row : OwnerScope → SyncItemInput Payload → SyncEntityRow Payload
  new_row owner item = record {
    session_id = owner.session_id;
    owner_user_id = owner.user_id;
    item_id = item.item_id;
    item_type = item.item_type;
    updated_at = as_i64 item.updated_at;
    deleted_at = map_found as_i64 item.deleted_at;
    payload = item.payload;
  }

  abbrev pub insert_row :
      OwnerScope → SyncItemInput Payload → Rows Payload → Result Text (Rows Payload × Bool)
  insert_row owner item rows =
      if any (has_key owner.session_id item.item_id) rows
      then err (codes "duplicate key")
      else ok (new_row owner item ∷ rows, true)

  abbrev pub upsert_for_account :
      OwnerScope → SyncItemInput Payload → Rows Payload → Result Text (Rows Payload × Bool)
  upsert_for_account owner item rows =
      if any (λ row. is_row_of owner item.item_id row && is_older item row) rows
      then ok (
        update_rows (λ row. is_row_of owner item.item_id row && is_older item row) (with_item item)
            rows,
        true,
      )
      else if any (is_row_of owner item.item_id) rows
      then ok (rows, false)
      else insert_row owner item rows

  abbrev pub disowned : SyncItemInput Payload → SyncEntityRow Payload → SyncEntityRow Payload
  disowned item row = record (with_item item row) { owner_user_id = none }

  -- `on conflict`: only a row that is not newer is updated.
  abbrev pub upsert_for_guest :
      OwnerScope → SyncItemInput Payload → Rows Payload → Result Text (Rows Payload × Bool)
  upsert_for_guest owner item rows =
      if any (has_key owner.session_id item.item_id) rows
      then ok (
        update_rows (λ row. has_key owner.session_id item.item_id row && is_older item row)
            (disowned item) rows,
        any (λ row. has_key owner.session_id item.item_id row && is_older item row) rows,
      )
      else insert_row owner item rows

  abbrev pub upsert_as :
      Option ℕ
      → OwnerScope
      → SyncItemInput Payload
      → Rows Payload
      → Result Text (Rows Payload × Bool)
  upsert_as none owner item rows = upsert_for_guest owner item rows
  upsert_as (some user_id) owner item rows = upsert_for_account owner item rows

  -- Whether a row was written.
  unfoldable pub upsert_sync_entity :
      (ℤ → Bool)
      → OwnerScope
      → SyncItemInput Payload
      → Rows Payload
      → Result Text (Rows Payload × Bool)
  upsert_sync_entity is_timestamp owner item rows =
      if fits_timestamp is_timestamp (some item.updated_at)
        && fits_timestamp is_timestamp item.deleted_at
      then upsert_as owner.user_id owner item rows
      else err (codes "timestamp out of range")

  -- The loop of `sync_preview`.
  unfoldable pub sync_preview :
      OwnerScope
      → Rows Payload
      → SyncPreviewResponse
      → List (SyncItemInput Payload)
      → SyncPreviewResponse
  unfolding is_valid_item classify_preview_action get_sync_entity_updated_at
  sync_preview owner rows counts [] = counts
  sync_preview owner rows counts (item ∷ items) =
      sync_preview owner rows
        (if not (is_valid_item item)
          then record counts { conflicts = counts.conflicts + 1 }
          else count_action
              (classify_preview_action item (get_sync_entity_updated_at owner item.item_id rows))
              counts)
        items

  -- The loop of `sync_commit`: the rows and how many items were merged.
  unfoldable pub commit_items :
      (ℤ → Bool)
      → OwnerScope
      → Rows Payload
      → ℕ
      → List (SyncItemInput Payload)
      → Result Text (Rows Payload × ℕ)
  unfolding is_valid_item upsert_sync_entity
  commit_items is_timestamp owner rows merged_count [] = ok (rows, merged_count)
  commit_items is_timestamp owner rows merged_count (item ∷ items) = do
    saved ←
        (if not (is_valid_item item)
          then ok (rows, false)
          else upsert_sync_entity is_timestamp owner item rows)
    commit_items is_timestamp owner saved.0 (if saved.1 then merged_count + 1 else merged_count)
        items

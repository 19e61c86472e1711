-- ===== src/Sync/Agreement.antt =====
-- What a preview says of an item is what a commit does.
use wfchat.Base.{
  ℕ, ◌+◌, ◌≤◌, ◌≡◌, Bool, true, false, not, ◌&&◌, [], ◌∷◌, Option, none, some, leb, nat_eq,
  if◌then◌else◌, is_negative, i64_max,
}
use wfchat.Cafe.Room.{OwnerScope}
use wfchat.Sync.{SyncItemInput, PreviewAction, conflict, is_valid_item, classify_preview_action}
use wfchat.Sync.Table.{SyncEntityRow, Rows, is_row_of, is_older, get_sync_entity_updated_at}

abbrev pub is_conflict : PreviewAction → Bool
is_conflict conflict = true
is_conflict _ = false

module _ {Payload : Type 0} where
  abbrev pub count_rows : (SyncEntityRow Payload → Bool) → Rows Payload → ℕ
  count_rows p [] = 0
  count_rows p (row ∷ rows) = (if p row then 1 else 0) + count_rows p rows

  -- The row is of the item, and of a time before 1970.
  abbrev pub is_row_before_1970 : OwnerScope → SyncItemInput Payload → SyncEntityRow Payload → Bool
  is_row_before_1970 owner item row = is_row_of owner item.item_id row && is_negative row.updated_at

  module _ (owner : OwnerScope) (item : SyncItemInput Payload) where
    abbrev of_item : SyncEntityRow Payload → Bool
    of_item row = is_row_of owner item.item_id row

    abbrev older_one : SyncEntityRow Payload → Bool
    older_one row = of_item row && is_older item row

    abbrev not_newer : Option ℕ → Bool
    not_newer none = false
    not_newer (some existing) = leb existing item.updated_at

    abbrev Agrees : Rows Payload → Rows Payload × Bool → Type 0
    Agrees rows r =
        (r.1
          ≡ not (
              is_conflict (
                classify_preview_action item (get_sync_entity_updated_at owner item.item_id rows))))
        × (r.1 ≡ false → r.0 ≡ rows)

  module _ (session_id : ℕ) (item : SyncItemInput Payload) (rows : Rows Payload)
      (valid : is_valid_item item ≡ true) (small : item.updated_at ≤ i64_max) where
    abbrev guest : OwnerScope
    guest = record { session_id = session_id; user_id = none }

    module _ (user_id : ℕ) where
      abbrev account : OwnerScope
      account = record { session_id = session_id; user_id = some user_id }

-- ===== src/Tests/Sync.antt =====
-- apps/api/src/sync.rs at concrete inputs.
use wfchat.Base.{ℕ, [], ◌∷◌, none, codes, nat_eq}
use wfchat.Cafe.Room.{OwnerScope}
use wfchat.Sync.{SyncItemInput}
use wfchat.Sync.Table.{SyncEntityRow, new_row, Rows}

abbrev a_note : ℕ → SyncItemInput (Unit {0})
a_note t = record {
  item_id = codes "n1";
  item_type = codes "note";
  updated_at = t;
  deleted_at = none;
  payload = tt;
}

abbrev a_guest : OwnerScope
a_guest = record { session_id = 3; user_id = none }

abbrev a_row : SyncEntityRow (Unit {0})
a_row = record (new_row a_guest (a_note 5)) { item_type = codes "memo" }

abbrev one_row : Rows (Unit {0})
one_row = a_row ∷ []

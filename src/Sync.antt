-- ===== src/Sync.antt =====
-- apps/api/src/sync.rs and apps/api/src/store/sync.rs: the items that clients synchronise. Times are in
-- seconds; the JSON of an item is a value of `Payload`.
pub mod Table
pub mod Agreement
use wfchat.Base.{
  ℕ, suc, ◌+◌, max, min, Bool, true, false, not, ◌&&◌, List, [], ◌∷◌, Option, none, some, Text,
  trim, is_empty, leb, ltb, if◌then◌else◌,
}

pub record SyncItemInput (Payload : Type 0) : Type 0 where
  pub item_id : Text
  pub item_type : Text
  pub updated_at : ℕ  -- u64
  pub deleted_at : Option ℕ
  pub payload : Payload

pub data PreviewAction : Type 0 where
  create update conflict : PreviewAction

abbrev action_for : ℕ → Option ℕ → PreviewAction
action_for updated_at none = create
action_for updated_at (some existing) = if leb existing updated_at then update else conflict

module _ {Payload : Type 0} where
  unfoldable pub is_valid_item : SyncItemInput Payload → Bool
  is_valid_item item =
      not (is_empty (trim item.item_id))
      && not (is_empty (trim item.item_type))
      && ltb 0 item.updated_at

  unfoldable pub classify_preview_action : SyncItemInput Payload → Option ℕ → PreviewAction
  unfolding is_valid_item
  classify_preview_action item existing_updated_at =
      if not (is_valid_item item) then conflict else action_for item.updated_at existing_updated_at

pub record SyncPreviewResponse : Type 0 where
  pub to_create : ℕ  -- u32
  pub to_update : ℕ  -- u32
  pub conflicts : ℕ  -- u32

abbrev pub count_action : PreviewAction → SyncPreviewResponse → SyncPreviewResponse
count_action create counts = record counts { to_create = counts.to_create + 1 }
count_action update counts = record counts { to_update = counts.to_update + 1 }
count_action conflict counts = record counts { conflicts = counts.conflicts + 1 }

unfoldable pub advance_cursor : ℕ → ℕ → ℕ
advance_cursor cursor updated_at = max cursor updated_at

-- `limit.unwrap_or(100).clamp(1, 500)`.
abbrev asked_or : Option ℕ → ℕ
asked_or none = 100
asked_or (some limit) = limit

unfoldable pub page_limit : Option ℕ → ℕ
page_limit limit = min 500 (max 1 (asked_or limit))

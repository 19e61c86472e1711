-- ===== src/Chat/Images.antt =====
-- apps/api/src/chat/messages.rs: `validate_message_attachment_requests`.
use wfchat.Base.{
  ℕ, ◌+◌, Bool, not, ◌&&◌, ◌||◌, List, [], ◌∷◌, Option, none, some, Text, codes, length, any,
  if◌then◌else◌, ltb, list_beq, nat_beq, nat_eq, is_some, usize_max, ℤ, pos, negsuc,
}
use wfchat.Errors.{
  AppResult, ok, err, reasoned, bad_request, not_found, image_count_limit, image_size_limit,
}

pub record SendMessageAttachmentRequest : Type 0 where
  pub id : ℕ
  pub kind : Text

-- The columns that are read.
pub record ChatAttachmentRecord : Type 0 where
  pub id : ℕ
  pub chat_id : Option ℕ
  pub message_id : Option ℕ
  pub kind : Text
  pub mime_type : Text
  pub byte_size : ℤ

abbrev pub chat_attachment_kind_image : Text
chat_attachment_kind_image = codes "image"

unfoldable pub is_supported_chat_image_mime_type : Text → Bool
is_supported_chat_image_mime_type mime_type =
    list_beq mime_type (codes "image/png")
    || list_beq mime_type (codes "image/jpeg")
    || list_beq mime_type (codes "image/webp")

infixl 5 ◌>>=◌
abbrev pub ◌>>=◌ {ℓ κ} : {A : Type ℓ} {B : Type κ} → AppResult A → (A → AppResult B) → AppResult B
ok a >>= f = f a
err e >>= f = err e

abbrev next_total : ℕ → ℕ → ℕ → AppResult ℕ
next_total total byte_size maximum =
    if ltb usize_max (total + byte_size)
    then err (bad_request (codes "image attachments exceed total byte limit"))
    else if ltb maximum (total + byte_size)
    then err (
        reasoned 400 (codes "bad request: image attachments exceed total byte limit")
          image_size_limit none)
    else ok (total + byte_size)

-- The new total.
unfoldable pub add_attachment_byte_size : ℕ → ℤ → ℕ → AppResult ℕ
add_attachment_byte_size total (pos byte_size) maximum = next_total total byte_size maximum
add_attachment_byte_size total (negsuc n) maximum =
    err (bad_request (codes "image attachment metadata is invalid"))

abbrev pub is_pending_image : ChatAttachmentRecord → Bool
is_pending_image found =
    list_beq found.kind chat_attachment_kind_image
    && not (is_some found.chat_id)
    && not (is_some found.message_id)

-- `get_attachment` is `get_chat_attachment` of the store for the owner of the chat.
module _ (get_attachment : ℕ → AppResult (Option ChatAttachmentRecord)) (maximum : ℕ) where
  abbrev check_record : ℕ → Option ChatAttachmentRecord → AppResult (ℕ × ChatAttachmentRecord)
  check_record total none = err not_found
  check_record total (some found) =
      if not (is_pending_image found)
      then err (bad_request (codes "image attachment is not pending"))
      else if not (is_supported_chat_image_mime_type found.mime_type)
      then err (bad_request (codes "image attachment type is not supported"))
      else add_attachment_byte_size total found.byte_size maximum >>= λ next. ok (next, found)

  unfoldable pub check_attachment :
      List ℕ → ℕ → SendMessageAttachmentRequest → AppResult (ℕ × ChatAttachmentRecord)
  unfolding add_attachment_byte_size is_supported_chat_image_mime_type
  check_attachment attachment_ids total attachment =
      if not (list_beq attachment.kind chat_attachment_kind_image)
      then err (bad_request (codes "only image attachments are supported"))
      else if any (λ id. nat_beq id attachment.id) attachment_ids
      then err (bad_request (codes "duplicate image attachment id"))
      else get_attachment attachment.id >>= check_record total

  -- The loop: the ids so far and their total.
  unfoldable pub check_attachments :
      List ℕ → ℕ → List SendMessageAttachmentRequest → AppResult (List ChatAttachmentRecord)
  unfolding check_attachment
  check_attachments attachment_ids total [] = ok []
  check_attachments attachment_ids total (attachment ∷ attachments) = do
    checked ← check_attachment attachment_ids total attachment
    records ← check_attachments (attachment.id ∷ attachment_ids) checked.0 attachments
    ok (checked.1 ∷ records)

  unfoldable pub validate_message_attachment_requests :
      ℕ → List SendMessageAttachmentRequest → AppResult (List ChatAttachmentRecord)
  unfolding check_attachments
  validate_message_attachment_requests max_images attachments =
      if ltb max_images (length attachments)
      then err (
          reasoned 400 (codes "bad request: too many image attachments for one message")
            image_count_limit none)
      else check_attachments [] 0 attachments

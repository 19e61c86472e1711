-- ===== src/Chat/Checked.antt =====
-- What the images of a message meet.
use wfchat.Base.{
  ℕ, ◌+◌, ◌≤◌, ◌≡◌, refl, subst, true, false, List, [], ◌∷◌, Option, some, length, any, nat_beq,
  arith, ℤ, pos, negsuc,
}
use wfchat.Errors.{AppResult, ok, err}
use wfchat.Chat.Images.{
  SendMessageAttachmentRequest, ChatAttachmentRecord, ◌>>=◌, is_supported_chat_image_mime_type,
  add_attachment_byte_size, is_pending_image, check_attachment, check_attachments,
  validate_message_attachment_requests,
}

bind-ok :
    {A B : Type 0} (m : AppResult A) (f : A → AppResult B) {b : B}
    → (m >>= f) ≡ ok b
    → (a : A) × (m ≡ ok a) × (f a ≡ ok b)
bind-ok (ok a) f h = (a, refl, h)
bind-ok (err e) f h = cc

of_ok : {A : Type 0} {a b : A} (m : AppResult A) → m ≡ ok a → m ≡ ok b → a ≡ b
of_ok m h h' = cc

abbrev pub bytes_of : ℤ → ℕ
bytes_of (pos n) = n
bytes_of (negsuc n) = 0

abbrev pub total_bytes : List ChatAttachmentRecord → ℕ
total_bytes [] = 0
total_bytes (found ∷ records) = bytes_of found.byte_size + total_bytes records

-- No id is asked for twice.
abbrev pub IsFresh : List ℕ → List SendMessageAttachmentRequest → Type 0
IsFresh ids [] = Unit
IsFresh ids (attachment ∷ attachments) =
    (any (λ id. nat_beq id attachment.id) ids ≡ false) × IsFresh (attachment.id ∷ ids) attachments

module _ (get_attachment : ℕ → AppResult (Option ChatAttachmentRecord)) (maximum : ℕ) where
  -- The records are the ones asked for, in that order, each a pending image of a supported type.
  abbrev pub Answers : List SendMessageAttachmentRequest → List ChatAttachmentRecord → Type 0
  Answers [] [] = Unit
  Answers [] (found ∷ records) = ⊥
  Answers (attachment ∷ attachments) [] = ⊥
  Answers (attachment ∷ attachments) (found ∷ records) =
      (get_attachment attachment.id ≡ ok (some found))
      × (is_pending_image found ≡ true)
      × (is_supported_chat_image_mime_type found.mime_type ≡ true)
      × Answers attachments records

  check_attachment-ok :
      (ids : List ℕ) (total : ℕ) (attachment : SendMessageAttachmentRequest) (next : ℕ)
      (found : ChatAttachmentRecord)
      → check_attachment get_attachment maximum ids total attachment ≡ ok (next, found)
      → (any (λ id. nat_beq id attachment.id) ids ≡ false)
        × (get_attachment attachment.id ≡ ok (some found))
        × (is_pending_image found ≡ true)
        × (is_supported_chat_image_mime_type found.mime_type ≡ true)
        × (next ≡ total + bytes_of found.byte_size)
        × (next ≤ maximum)
  unfolding check_attachment add_attachment_byte_size
  check_attachment-ok ids total attachment next found h = ground arith

  check_attachments-ok :
      (ids : List ℕ) (total : ℕ) (attachments : List SendMessageAttachmentRequest)
      (records : List ChatAttachmentRecord)
      → total ≤ maximum
      → check_attachments get_attachment maximum ids total attachments ≡ ok records
      → IsFresh ids attachments
        × Answers attachments records
        × (total + total_bytes records ≤ maximum)
  unfolding check_attachments
  check_attachments-ok ids total [] [] le h = ground arith
  check_attachments-ok ids total [] (found ∷ records) le h = ground arith
  check_attachments-ok ids total (attachment ∷ attachments) records le h =
      let (checked, first, after_first) =
        bind-ok (check_attachment get_attachment maximum ids total attachment) _ h in
      let (others, rest, same) =
        bind-ok
          (check_attachments get_attachment maximum (attachment.id ∷ ids) checked.0 attachments) _
          after_first in
      let facts = check_attachment-ok ids total attachment checked.0 checked.1 first in
      let more =
        check_attachments-ok (attachment.id ∷ ids) checked.0 attachments others
          (ground (arith, facts)) rest in
      subst
        (λ found.
          IsFresh ids (attachment ∷ attachments)
          × Answers (attachment ∷ attachments) found
          × (total + total_bytes found ≤ maximum))
        (of_ok _ refl same)
        ((facts.0, more.0), (facts.1, facts.2, facts.3, more.1), omega (arith, facts.4, more.2))

  -- The images of a message that is accepted are no more than allowed and asked for once each; each is
  -- the owner's, pending, and of a supported type; together they are no larger than allowed.
  pub validate_message_attachment_requests-ok :
      (max_images : ℕ) (attachments : List SendMessageAttachmentRequest)
      (records : List ChatAttachmentRecord)
      → validate_message_attachment_requests get_attachment maximum max_images attachments
        ≡ ok records
      → (length attachments ≤ max_images)
        × IsFresh [] attachments
        × Answers attachments records
        × (total_bytes records ≤ maximum)
  unfolding validate_message_attachment_requests
  validate_message_attachment_requests-ok max_images attachments records h =
      ground (arith, check_attachments-ok [] 0 attachments records)

-- ===== src/Chat.antt =====
-- apps/api/src/chat/messages.rs: what a message has to meet, and what of a chat a model is sent.
pub mod Context
pub mod Images
pub mod Output
pub mod Selection
pub mod Checked
use wfchat.Base.{ℕ, Option, Text, List}

pub data AiRole : Type 0 where
  system user assistant : AiRole

-- A message of a chat as it is stored; `content` is its characters.
pub record StoredMessage : Type 0 where
  pub id : ℕ
  pub role : AiRole
  pub content : Text
  pub created_at : ℕ

-- A message of one text part.
pub record AiMessage : Type 0 where
  pub role : AiRole
  pub text : Text

abbrev pub to_ai_message : StoredMessage → AiMessage
to_ai_message message = record { role = message.role; text = message.content }

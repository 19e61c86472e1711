-- ===== src/Cafe/Room/History.antt =====
-- The chat history of a room, in apps/api/src/cafe.rs.
use wfchat.Base.{
  ℕ, zero, suc, ◌-◌, ◌≡◌, refl, ◌∙◌, true, sym, ap, List, [], ◌∷◌, ◌++◌, length-append, length,
  drop, ltb, arith, Bool-cases, inl, inr,
}
use wfchat.Cafe.F32.{F32}
use wfchat.Cafe.Room.{
  CafeRoom, CafeChatEvent, CafeServerMessage, snapshot, dialogue, emote, chat_event, reward,
  chat_history_limit, trim_history, push_chat_event,
}

drop_nil : (n : ℕ) → drop {A = CafeChatEvent} n [] ≡ []
drop_nil zero = refl
drop_nil (suc n) = refl

drop_more :
    (a b : ℕ) (e : CafeChatEvent) (es : List CafeChatEvent)
    → a ≡ suc b
    → drop a (e ∷ es) ≡ drop b es
drop_more a b e es h = rw h refl

drop_zero : (a : ℕ) (e : CafeChatEvent) (es : List CafeChatEvent) → a ≡ 0 → drop a (e ∷ es) ≡ e ∷ es
drop_zero a e es h = rw h refl

-- The loop keeps the events at the end.
pub trim_history-drop :
    (limit : ℕ) (es : List CafeChatEvent) → trim_history limit es ≡ drop (length es - limit) es
trim_history-drop limit [] = sym (drop_nil (0 - limit))
trim_history-drop limit (e ∷ es) = elim (Bool-cases (ltb limit (length (e ∷ es)))) [
  | inl over ↦ rw over (
      trim_history-drop limit es
      ∙ sym (drop_more (length (e ∷ es) - limit) (length es - limit) e es (ground arith)))
  | inr fits ↦ rw fits (sym (drop_zero (length (e ∷ es) - limit) e es (ground arith)))
]

-- What was shortened before is shortened again as the whole would be.
trim_history-append :
    (limit : ℕ) (e : CafeChatEvent) (es : List CafeChatEvent)
    → trim_history limit (trim_history limit es ++ e ∷ []) ≡ trim_history limit (es ++ e ∷ [])
trim_history-append limit e [] = refl
trim_history-append limit e (x ∷ xs) = elim (Bool-cases (ltb limit (length (x ∷ xs)))) [
  | inl over ↦
      let longer : ltb limit (length ((x ∷ xs) ++ e ∷ [])) ≡ true =
        ground (arith, length-append xs (e ∷ [])) in
      rw (over, longer) (trim_history-append limit e xs)
  | inr fits ↦ rw fits refl
]

append_nil : (es : List CafeChatEvent) → es ++ [] ≡ es
append_nil [] = refl
append_nil (e ∷ es) = ap (λ rest. e ∷ rest) (append_nil es)

module _ {f : F32} where
  -- The chat events among the messages.
  abbrev pub chat_events : List (CafeServerMessage f) → List CafeChatEvent
  chat_events [] = []
  chat_events (chat_event event ∷ ms) = event ∷ chat_events ms
  chat_events (_ ∷ ms) = chat_events ms

  chat_events-append :
      (ms ns : List (CafeServerMessage f))
      → chat_events (ms ++ ns) ≡ chat_events ms ++ chat_events ns
  chat_events-append [] ns = refl
  chat_events-append (snapshot a b ∷ ms) ns = chat_events-append ms ns
  chat_events-append (dialogue a b ∷ ms) ns = chat_events-append ms ns
  chat_events-append (emote a b ∷ ms) ns = chat_events-append ms ns
  chat_events-append (chat_event a ∷ ms) ns = ap (λ es. a ∷ es) (chat_events-append ms ns)
  chat_events-append (reward a b ∷ ms) ns = chat_events-append ms ns

  -- The history is what was said last, as far as it goes back.
  unfoldable pub IsRecent : List CafeChatEvent → List (CafeServerMessage f) → Type 0
  IsRecent history ms =
      history ≡ drop (length (chat_events ms) - chat_history_limit) (chat_events ms)

  -- The history that a player gets who joins: the last 30 events of those that were sent, or all if
  -- there were fewer, where it was so before the event.
  pub push_chat_event-IsRecent :
      (event : CafeChatEvent) (room : CafeRoom f)
      → IsRecent room.chat_history room.sender
      → IsRecent (push_chat_event event room).chat_history (push_chat_event event room).sender
  unfolding push_chat_event IsRecent
  push_chat_event-IsRecent event room v =
      let said = chat_events room.sender in
      rw
        (
          v,
          sym (trim_history-drop chat_history_limit said),
          chat_events-append room.sender (chat_event event ∷ []),
        )
        (trim_history-append chat_history_limit event said
          ∙ trim_history-drop chat_history_limit (said ++ event ∷ []))

  -- What is no chat event leaves the history as it is.
  pub send-IsRecent :
      (m : CafeServerMessage f) (history : List CafeChatEvent) (ms : List (CafeServerMessage f))
      → chat_events (m ∷ []) ≡ []
      → IsRecent history ms
      → IsRecent history (ms ++ m ∷ [])
  unfolding IsRecent
  send-IsRecent m history ms quiet v =
      rw (chat_events-append ms (m ∷ []), quiet, append_nil (chat_events ms)) v

-- ===== src/Chat/Selection.antt =====
-- Which messages of a chat a model is sent.
use wfchat.Base.{
  ℕ, zero, suc, ◌+◌, ◌-◌, ◌≤◌, ◌<◌, ◌≡◌, refl, ap, List, [], ◌∷◌, map, reverse, length, take, arith,
}
use wfchat.Chat.{StoredMessage, AiMessage, to_ai_message}
use wfchat.Chat.Context.{select_messages, bounded_chat_history}

abbrev pub total_chars : List StoredMessage → ℕ
total_chars [] = 0
total_chars (message ∷ messages) = length message.content + total_chars messages

abbrev picked : ℕ → ℕ → List StoredMessage → List AiMessage
picked cap limit newest = select_messages cap (take limit newest)

picked-map :
    (cap limit : ℕ) (newest : List StoredMessage)
    → picked cap limit newest ≡ map to_ai_message (take (length (picked cap limit newest)) newest)
unfolding select_messages
picked-map cap zero newest = refl
picked-map cap (suc limit) [] = refl
picked-map cap (suc limit) (m ∷ newest) =
    ground (arith, picked-map (cap - length m.content) limit newest)

picked-total_chars :
    (cap limit : ℕ) (newest : List StoredMessage)
    → total_chars (take (length (picked cap limit newest)) newest) ≤ cap
unfolding select_messages
picked-total_chars cap zero newest = ground arith
picked-total_chars cap (suc limit) [] = ground arith
picked-total_chars cap (suc limit) (m ∷ newest) =
    ground (arith, picked-total_chars (cap - length m.content) limit newest)

picked-le : (cap limit : ℕ) (newest : List StoredMessage) → length (picked cap limit newest) ≤ limit
unfolding select_messages
picked-le cap zero newest = ground arith
picked-le cap (suc limit) [] = ground arith
picked-le cap (suc limit) (m ∷ newest) =
    ground (arith, picked-le (cap - length m.content) limit newest)

picked-next :
    (cap limit : ℕ) (newest : List StoredMessage)
    → length (picked cap limit newest) < limit
    → length (picked cap limit newest) < length newest
    → cap < total_chars (take (suc (length (picked cap limit newest))) newest)
unfolding select_messages
picked-next cap zero newest lt lt' = ground arith
picked-next cap (suc limit) [] lt lt' = ground arith
picked-next cap (suc limit) (m ∷ newest) lt lt' =
    ground (arith, picked-next (cap - length m.content) limit newest)

-- A model is sent the newest messages of a chat, in their order, as many as both limits allow: at most
-- `max_messages`, with at most `max_chars` characters, and one more would pass a limit or is not there.
pub bounded_chat_history_lem :
    (messages : List StoredMessage) (max_messages max_chars : ℕ)
    → let newest = reverse messages in
      (n : ℕ) × (bounded_chat_history messages max_messages max_chars
        ≡ reverse (map to_ai_message (take n newest)))
      × (n ≤ max_messages)
      × (total_chars (take n newest) ≤ max_chars)
      × (n < max_messages → n < length newest → max_chars < total_chars (take (suc n) newest))
unfolding bounded_chat_history
bounded_chat_history_lem messages max_messages max_chars =
    let newest = reverse messages in
    (
      length (picked max_chars max_messages newest),
      ap reverse (picked-map max_chars max_messages newest),
      picked-le max_chars max_messages newest,
      picked-total_chars max_chars max_messages newest,
      picked-next max_chars max_messages newest,
    )

-- ===== src/Chat/Delivery.antt =====
-- course_discovery/chat/handlers.py: what a delivery posts.
use course_discovery_agent.Prelude.{
  ℕ, suc, ◌≤◌, String, Option, none, some, List, [], ◌∷◌, ◌++◌, ◌≡◌, refl, ◌⊎◌, inl, inr, ◌∙◌, map,
  take, length, text_length, arith, All, Option-cases, sym, Bool-cases,
}
use mathlib.Core.List.{append-nil, append_assoc}
use course_discovery_agent.Prelude.Dict.{get}
use course_discovery_agent.Effects.Models.{Effect, Value, null, text, number, texts, carrier}
use course_discovery_agent.Effects.Worker.{Outcome, returns, raises}
use course_discovery_agent.Effects.Handlers.{is_empty}
use course_discovery_agent.Chat.Store.{Database, chat_id_for}
use course_discovery_agent.Chat.Transport.{
  Post, max_message_chars, send_parts, send, send_value, user_of, send_to, deliver,
}
use course_discovery_agent.Chat.Parts.{joined, split_message-joined}

abbrev pub posts_to : ℕ → List String → List Post
posts_to chat = map (λ p. (chat, p))

-- All parts were posted, or some of the first, the last of which raised.
abbrev pub Posts : ℕ → List String → List Post → Outcome → List Post → Type 0
Posts chat parts made o made' =
    ((o ≡ returns) × (made' ≡ made ++ posts_to chat parts))
    ⊎ ((name : String) × (message : String) × (n : ℕ) × (o ≡ raises name message)
        × (1 ≤ n)
        × (n ≤ length parts)
        × (made' ≡ made ++ posts_to chat (take n parts)))

-- An exception.
abbrev pub IsRefused : Outcome → Type 0
IsRefused returns = ⊥
IsRefused _ = Unit

-- The message goes in parts, none too long, to the chat of the user that the effect names.
abbrev pub IsDelivery : Database → Effect → List Post → Outcome → List Post → Type 0
IsDelivery db effect made o made' =
    (message : String) × (user : String) × (chat : ℕ) × (parts : List String) × (get "text"
        effect.payload
      ≡ some (text message))
    × (user_of (get "user_id" effect.payload) ≡ some user)
    × (chat_id_for user db.chat_identities ≡ some chat)
    × (joined parts ≡ message)
    × All (λ p. text_length p ≤ max_message_chars) parts
    × Posts chat parts made o made'

abbrev pub Ends : Database → Effect → List Post → Outcome × List Post → Type 0
Ends db effect made (o, made') = ((made' ≡ made) × IsRefused o) ⊎ IsDelivery db effect made o made'

module _ (post : List Post → Post → Option (String × String)) where
  send_parts-Posts :
      (chat : ℕ) (parts : List String) (made : List Post)
      → let (o, made') = send_parts post chat parts made in Posts chat parts made o made'
  unfolding send_parts
  send_parts-Posts chat [] made = inl (refl, sym (append-nil made))
  send_parts-Posts chat (p ∷ ps) made = elim (Option-cases (post made (chat, p))) [
    | inr ((name, message), e) ↦
        rw (e, send_parts) (inr (name, message, 1, refl, omega arith, omega arith, refl))
    | inl e ↦
        rw (e, send_parts)
          (elim (send_parts-Posts chat ps (made ++ (chat, p) ∷ [])) [
            | inl (o, h) ↦ inl (o, h ∙ append_assoc made ((chat, p) ∷ []) (posts_to chat ps))
            | inr (name, message, n, o, a, b, h) ↦ inr (
              name,
              message,
              suc n,
              o,
              omega arith,
              omega (arith, b),
              h ∙ append_assoc made ((chat, p) ∷ []) (posts_to chat (take n ps)),
            )
          ])
  ]

  send_value-Ends :
      (db : Database) (effect : Effect) (made : List Post) (user : String)
      → user_of (get "user_id" effect.payload) ≡ some user
      → (value : Option Value) → get "text" effect.payload ≡ value
      → (chat : Option ℕ) → chat_id_for user db.chat_identities ≡ chat
      → Ends db effect made (send_value post chat effect value made)
  unfolding send_value send
  send_value-Ends db effect made user u value v none c = inl (refl, tt)
  send_value-Ends db effect made user u none v (some chat) c = inl (refl, tt)
  send_value-Ends db effect made user u (some null) v (some chat) c = inl (refl, tt)
  send_value-Ends db effect made user u (some (number n)) v (some chat) c = inl (refl, tt)
  send_value-Ends db effect made user u (some (texts ts)) v (some chat) c = inl (refl, tt)
  send_value-Ends db effect made user u (some (carrier d)) v (some chat) c = inl (refl, tt)
  send_value-Ends db effect made user u (some (text message)) v (some chat) c =
      let (parts, split, whole, short, more) =
        split_message-joined message max_message_chars (omega arith) in
      rw (split, send)
        (inr (message, user, chat, parts, v, u, c, whole, short, send_parts-Posts chat parts made))

  send_to-Ends :
      (db : Database) (effect : Effect) (made : List Post) (found : Option String)
      → user_of (get "user_id" effect.payload) ≡ found
      → Ends db effect made (send_to post db effect found made)
  unfolding send_to
  send_to-Ends db effect made none u = inl (refl, tt)
  send_to-Ends db effect made (some user) u =
      send_value-Ends db effect made user u (get "text" effect.payload) refl
        (chat_id_for user db.chat_identities) refl

  -- Delivering an effect to a chat has one of two ends. It raises before any request. Or the effect has
  -- a text and names a user who has a chat, and what is posted, after the requests made before, goes to
  -- that chat alone: parts of 4096 characters at most that joined are the text, all of them if the
  -- delivery returns, and the first few up to the one that raised if a request raises.
  pub deliver-Ends :
      (db : Database) (effect : Effect) (made : List Post)
      → Ends db effect made (deliver post db effect made)
  unfolding deliver
  deliver-Ends db effect made = elim (Bool-cases (is_empty (get "text" effect.payload))) [
    | inl e ↦ rw (e, deliver) (inl (refl, tt))
    | inr e ↦
        rw (e, deliver) (send_to-Ends db effect made (user_of (get "user_id" effect.payload)) refl)
  ]

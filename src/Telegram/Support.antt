-- ===== src/Telegram/Support.antt =====
-- telegram/support-conversation.service.ts. A message of a conversation that is missing breaks the foreign
-- key; the telegram account is a row. Of the list for administrators the names of the account are left out.
pub mod One
pub mod Landing
use ruznamo_backend.Common.{
  ℕ, suc, zero, Bool, true, false, not, Option, none, some, List, [], ◌∷◌, ◌&&◌, ◌==◌, ltb, is_none,
  is_nil, map, trim, if◌then◌else◌, find, select, count, first, sort_by, insert, update_where,
  Result, ok, err, ◌>>=◌, ◌>>◌, throw_if, or_throw, or_else, record_not_found,
  foreign_key_violation, codes,
}
use ruznamo_backend.Db.{
  Db, SupportConversation, SupportMessage, SupportConversationStatus, SupportMessageDirection,
  SupportMessageContentType, is_conversation_open,
}

abbrev pub newer_conversation : SupportConversation → SupportConversation → Bool
newer_conversation a b = ltb b.updated_at a.updated_at

abbrev pub is_open_of : ℕ → SupportConversation → Bool
is_open_of account_id c = c.telegram_account_id == account_id && is_conversation_open c.status

-- The open conversation of the latest change.
unfoldable pub open_conversation : Db → ℕ → Option SupportConversation
unfolding select sort_by
open_conversation db account_id =
    first (sort_by newer_conversation (select (is_open_of account_id) db.conversations))

unfoldable pub conversation_of : Db → ℕ → Option SupportConversation
unfolding find
conversation_of db id = find (λ c. c.id == id) db.conversations

unfoldable pub update_conversation : ℕ → (SupportConversation → SupportConversation) → Db → Db
unfolding update_where
update_conversation id f db = record db {
  conversations = update_where (λ c. c.id == id) f db.conversations;
}

abbrev pub new_conversation : ℕ → ℕ → ℕ → Option (List ℕ) → SupportConversation
new_conversation now id account_id category = record {
  id = id;
  telegram_account_id = account_id;
  status = SupportConversationStatus.opened;
  category = category;
  updated_at = now;
  closed_at = none;
}

abbrev pub set_category : ℕ → List ℕ → SupportConversation → SupportConversation
set_category now category c = record c { category = some category; updated_at = now }

abbrev pub touch : ℕ → SupportConversation → SupportConversation
touch now c = record c { updated_at = now }

abbrev pub close : ℕ → SupportConversation → SupportConversation
close now c = record c {
  status = SupportConversationStatus.closed;
  closed_at = some now;
  updated_at = now;
}

-- createConversation: the id of the conversation. It looks in `db` and writes on `met`.
unfoldable pub create_conversation : Db → Db → ℕ → ℕ → ℕ → List ℕ → ℕ × Db
unfolding update_conversation
create_conversation db met now new_id account_id category = elim (open_conversation db account_id) [
  | some existing ↦ (existing.id, update_conversation existing.id (set_category now category) met)
  | none ↦ (
    new_id,
    record met {
      conversations =
          insert (new_conversation now new_id account_id (some category)) met.conversations;
    },
  )
]

-- getOrCreateOpenConversation; it looks in `db` and writes on `met`.
unfoldable pub get_or_create_open_conversation : Db → Db → ℕ → ℕ → ℕ → ℕ × Db
get_or_create_open_conversation db met now new_id account_id =
    elim (open_conversation db account_id) [
      | some existing ↦ (existing.id, met)
      | none ↦ (
        new_id,
        record met {
          conversations = insert (new_conversation now new_id account_id none) met.conversations;
        },
      )
    ]

-- What a message carries.
pub record MessageInput : Type 0 where
  pub content_type : Option SupportMessageContentType
  pub text : Option (List ℕ)
  pub caption : Option (List ℕ)
  pub file_id : Option (List ℕ)
  pub telegram_message_id : Option ℕ

abbrev pub new_message : ℕ → ℕ → ℕ → SupportMessageDirection → MessageInput → SupportMessage
new_message now id conversation_id direction input = record {
  id = id;
  conversation_id = conversation_id;
  direction = direction;
  content_type = or_else input.content_type SupportMessageContentType.text;
  text = input.text;
  caption = input.caption;
  file_id = input.file_id;
  telegram_message_id = input.telegram_message_id;
  created_at = now;
}

-- The message is created and its conversation touched.
unfoldable pub append_message : Db → ℕ → ℕ → ℕ → SupportMessageDirection → MessageInput → Result Db
unfolding update_conversation
append_message db now id conversation_id direction input = do
  throw_if (is_none (conversation_of db conversation_id)) foreign_key_violation
  ok (
      update_conversation conversation_id (touch now) (record db {
        messages = insert (new_message now id conversation_id direction input) db.messages;
      }))

-- appendUserMessage; a content type is always given. The answer is the conversation, whose creation
-- stays if the message fails.
unfoldable pub append_user_message : Db → ℕ → ℕ → ℕ → ℕ → Option ℕ → MessageInput → Result (ℕ × Db)
unfolding get_or_create_open_conversation append_message
append_user_message db now new_id message_id account_id (some conversation_id) input = do
  db' ← append_message db now message_id conversation_id SupportMessageDirection.user_to_admin input
  ok (conversation_id, db')
append_user_message db now new_id message_id account_id none input =
    let (conversation_id, db₁) = get_or_create_open_conversation db db now new_id account_id in
    do
      db' ←
          append_message db₁ now message_id conversation_id SupportMessageDirection.user_to_admin
            input
      ok (conversation_id, db')

-- appendAdminMessage
unfoldable pub append_admin_message : Db → ℕ → ℕ → ℕ → MessageInput → Result Db
unfolding append_message
append_admin_message db now message_id conversation_id input =
    append_message db now message_id conversation_id SupportMessageDirection.admin_to_user input

-- closeConversation
unfoldable pub close_conversation : Db → ℕ → ℕ → Result Db
unfolding update_conversation
close_conversation db now id = do
  found ← or_throw (conversation_of db id) record_not_found
  ok (update_conversation id (close now) db)

abbrev pub take : ℕ → List ℕ → List ℕ
take n [] = []
take zero (c ∷ cs) = []
take (suc n) (c ∷ cs) = c ∷ take n cs

abbrev kind_label : SupportMessageContentType → List ℕ
kind_label SupportMessageContentType.photo = codes "[Фото]"
kind_label SupportMessageContentType.document = codes "[Документ]"
kind_label SupportMessageContentType.text = codes "—"

-- The trimmed text where there is one, else what follows.
abbrev text_or : Option (List ℕ) → List ℕ → List ℕ
unfolding trim
text_or none rest = rest
text_or (some given) rest = if is_nil (trim given) then rest else take 120 (trim given)

-- previewMessage
unfoldable pub preview_message : Option SupportMessage → List ℕ
unfolding trim
preview_message none = codes "—"
preview_message (some m) = text_or m.text (text_or m.caption (kind_label m.content_type))

abbrev newer_message : SupportMessage → SupportMessage → Bool
newer_message a b = ltb b.created_at a.created_at

abbrev older_message : SupportMessage → SupportMessage → Bool
older_message a b = ltb a.created_at b.created_at

pub record ConversationItem : Type 0 where
  pub conversation : SupportConversation
  pub latest_preview : List ℕ
  pub message_count : ℕ

unfoldable pub conversation_item : Db → SupportConversation → ConversationItem
unfolding select sort_by count preview_message
conversation_item db c = record {
  conversation = c;
  latest_preview =
      preview_message
        (first (sort_by newer_message (select (λ m. m.conversation_id == c.id) db.messages)));
  message_count = count (λ m. m.conversation_id == c.id) db.messages;
}

abbrev take_rows : ℕ → List SupportConversation → List SupportConversation
take_rows n [] = []
take_rows zero (c ∷ cs) = []
take_rows (suc n) (c ∷ cs) = c ∷ take_rows n cs

-- listOpenConversations
unfoldable pub list_open_conversations : Db → ℕ → List ConversationItem
unfolding select sort_by conversation_item
list_open_conversations db limit = map (conversation_item db) (
    take_rows limit
      (sort_by newer_conversation (select (λ c. is_conversation_open c.status) db.conversations)))

-- getConversationHistory: the messages, the oldest first.
unfoldable pub get_conversation_history : Db → ℕ → Option (List SupportMessage)
unfolding select sort_by
get_conversation_history db id = elim (conversation_of db id) [
  | none ↦ none
  | some c ↦ some (sort_by older_message (select (λ m. m.conversation_id == id) db.messages))
]

-- ===== src/Telegram/Support/One.antt =====
-- The open conversation of an account in telegram/support-conversation.service.ts.
use ruznamo_backend.Common.{
  ℕ, ◌≤◌, ◌≡◌, List, Option, some, none, true, ok, insert, count, ◌==◌, arith, inl, inr,
  Option-cases, ap, >>=-eq-ok, >>-eq-ok, ok-injective, or_throw, record_not_found,
  foreign_key_violation,
}
use ruznamo_backend.Common.Best.{no_first, count-select_none}
use ruznamo_backend.Common.Counting.{count-insert, count-update_shrink}
use ruznamo_backend.Db.{Db, SupportConversation, SupportMessageDirection}
use ruznamo_backend.Telegram.Support.{
  close, touch, set_category, append_message, conversation_of, newer_conversation,
  update_conversation, new_conversation, get_or_create_open_conversation, open_conversation,
  create_conversation, append_user_message, append_admin_message, close_conversation, MessageInput,
  is_open_of,
}
use mathlib.Core.Path.{subst}

-- No account has two open conversations.
abbrev pub One : Db → Type 0
One db = (account_id : ℕ) → count (is_open_of account_id) db.conversations ≤ 1

pub data SupportStep : Db → Db → Type 0 where
  conversation_created :
      {db : Db} (now new_id account_id : ℕ) (category : List ℕ)
      → SupportStep db (create_conversation db db now new_id account_id category).1
  user_wrote :
      {db db' : Db} (now new_id message_id account_id : ℕ) (chosen : Option ℕ)
      (input : MessageInput) (id : ℕ)
      → append_user_message db now new_id message_id account_id chosen input ≡ ok (id, db')
      → SupportStep db db'
  admin_wrote :
      {db db' : Db} (now message_id id : ℕ) (input : MessageInput)
      → append_admin_message db now message_id id input ≡ ok db'
      → SupportStep db db'
  conversation_closed :
      {db db' : Db} (now id : ℕ) → close_conversation db now id ≡ ok db' → SupportStep db db'

pub data SupportSteps : Db → Db → Type 0 where
  stay : {db : Db} → SupportSteps db db
  step : {db db' db'' : Db} → SupportStep db db' → SupportSteps db' db'' → SupportSteps db db''

update_conversation-One :
    (db : Db) (id : ℕ) (f : SupportConversation → SupportConversation)
    → ((account_id : ℕ) (c : SupportConversation)
        → is_open_of account_id (f c) ≡ true
        → is_open_of account_id c ≡ true)
    → One db
    → One (update_conversation id f db)
unfolding update_conversation
update_conversation-One db id f sub one account_id = omega (
  arith,
  one account_id,
  count-update_shrink (is_open_of account_id) (λ c. c.id == id) f db.conversations (sub account_id),
)

none_open :
    (db : Db) (account_id : ℕ)
    → open_conversation db account_id ≡ none
    → count (is_open_of account_id) db.conversations ≡ 0
unfolding open_conversation
none_open db account_id missing =
    count-select_none (is_open_of account_id) db.conversations
      (no_first newer_conversation _ missing)

insert-One :
    (db : Db) (now id account_id : ℕ) (category : Option (List ℕ))
    → open_conversation db account_id ≡ none
    → One db
    → One (record db {
      conversations = insert (new_conversation now id account_id category) db.conversations;
    })
insert-One db now id account_id category missing one k = ground (
  arith,
  one k,
  others,
  count-insert (is_open_of k) (new_conversation now id account_id category) db.conversations,
)
  where
    others : (account_id == k) ≡ true → count (is_open_of k) db.conversations ≡ 0
    others h =
        subst (λ n. count (is_open_of n) db.conversations ≡ 0) (ground arith)
          (none_open db account_id missing)

create_conversation-One :
    (db : Db) (now new_id account_id : ℕ) (category : List ℕ)
    → One db
    → One (create_conversation db db now new_id account_id category).1
unfolding create_conversation
create_conversation-One db now new_id account_id category one =
    elim (Option-cases (open_conversation db account_id)) [
      | inl missing ↦
          rw (missing, create_conversation)
            (insert-One db now new_id account_id (some category) missing one)
      | inr (c, found) ↦
          rw (found, create_conversation)
            (update_conversation-One db c.id (set_category now category) (λ k x h. h) one)
    ]

pub get_or_create-One :
    (db : Db) (now new_id account_id : ℕ)
    → One db
    → One (get_or_create_open_conversation db db now new_id account_id).1
unfolding get_or_create_open_conversation
get_or_create-One db now new_id account_id one =
    elim (Option-cases (open_conversation db account_id)) [
      | inl missing ↦
          rw (missing, get_or_create_open_conversation)
            (insert-One db now new_id account_id none missing one)
      | inr (c, found) ↦ rw (found, get_or_create_open_conversation) one
    ]

append_message-One :
    (db : Db) (now id conversation_id : ℕ) (direction : SupportMessageDirection)
    (input : MessageInput) (db' : Db)
    → append_message db now id conversation_id direction input ≡ ok db'
    → One db
    → One db'
unfolding append_message update_conversation
append_message-One db now id conversation_id direction input db' h one =
    let (_, h₁) = >>-eq-ok _ foreign_key_violation _ h in
    subst One (ok-injective h₁)
      (update_conversation-One db conversation_id (touch now) (λ k x e. e) one)

pub append_user_message-One :
    (db : Db) (now new_id message_id account_id : ℕ) (chosen : Option ℕ) (input : MessageInput)
    (id : ℕ) (db' : Db)
    → append_user_message db now new_id message_id account_id chosen input ≡ ok (id, db')
    → One db
    → One db'
unfolding append_user_message
append_user_message-One db now new_id message_id account_id (some c) input id db' h one =
    let (db₁, went, e) =
      >>=-eq-ok (append_message db now message_id c SupportMessageDirection.user_to_admin input) _
        h in
    subst One (ap (λ p. p.1) (ok-injective e))
      (append_message-One db now message_id c _ input db₁ went one)
append_user_message-One db now new_id message_id account_id none input id db' h one =
    let (db₁, went, e) =
      >>=-eq-ok
        (append_message (get_or_create_open_conversation db db now new_id account_id).1 now
          message_id (get_or_create_open_conversation db db now new_id account_id).0
          SupportMessageDirection.user_to_admin input)
        _ h in
    subst One (ap (λ p. p.1) (ok-injective e)) (
      append_message-One _ now message_id _ _ input db₁ went
        (get_or_create-One db now new_id account_id one))

close_conversation-One :
    (db : Db) (now id : ℕ) (db' : Db) → close_conversation db now id ≡ ok db' → One db → One db'
unfolding close_conversation
close_conversation-One db now id db' h one =
    let (_, _, h₁) = >>=-eq-ok (or_throw (conversation_of db id) record_not_found) _ h in
    subst One (ok-injective h₁)
      (update_conversation-One db id (close now) (λ k x e. absurd (ground arith)) one)

pub steps-One : {db db' : Db} → SupportSteps db db' → One db → One db'
unfolding append_admin_message
steps-One SupportSteps.stay one = one
steps-One
      (SupportSteps.step {db}
        (SupportStep.conversation_created now new_id account_id category)
        rest)
      one =
    steps-One rest (create_conversation-One db now new_id account_id category one)
steps-One
      (SupportSteps.step {db} {db'}
        (SupportStep.user_wrote now new_id message_id account_id chosen input id h)
        rest)
      one =
    steps-One rest
      (append_user_message-One db now new_id message_id account_id chosen input id db' h one)
steps-One (SupportSteps.step {db} {db'} (SupportStep.admin_wrote now message_id id input h) rest)
      one =
    steps-One rest (
      append_message-One db now message_id id SupportMessageDirection.admin_to_user input db' h one)
steps-One (SupportSteps.step {db} {db'} (SupportStep.conversation_closed now id h) rest) one =
    steps-One rest (close_conversation-One db now id db' h one)

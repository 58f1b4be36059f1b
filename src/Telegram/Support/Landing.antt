-- ===== src/Telegram/Support/Landing.antt =====
-- Where the messages of users go in telegram/support-conversation.service.ts.
use ruznamo_backend.Common.{
  select, ℕ, ◌≤◌, ◌≡◌, List, [], ◌∷◌, Bool, none, true, false, ok, refl, insert, count, find, ◌==◌,
  ◌&&◌, arith, inl, inr, Option-cases, ap, ==_refl, is_none,
}
use ruznamo_backend.Common.Best.{Mem-select, Mem-first, Mem-sort_by, count-Mem}
use ruznamo_backend.Common.Counting.{count-update_same, count-find-none}
use ruznamo_backend.Db.{Db, SupportConversation, SupportMessageDirection}
use ruznamo_backend.Telegram.Support.{
  new_message, touch, append_message, conversation_of, newer_conversation, update_conversation,
  new_conversation, get_or_create_open_conversation, open_conversation, append_user_message,
  MessageInput, is_open_of,
}
use mathlib.Core.List.{Memᴰ}
use ruznamo_backend.Telegram.Support.One.{One, SupportSteps, steps-One, append_user_message-One}

Mem-insert : {A : Type 0} (x : A) (xs : List A) → Memᴰ x (insert x xs)
Mem-insert x [] = Memᴰ.head refl
Mem-insert x (y ∷ ys) = Memᴰ.tail (Mem-insert x ys)

found-Mem :
    {A : Type 0} (p : A → Bool) (xs : List A) {x : A}
    → Memᴰ x xs
    → p x ≡ true
    → is_none (find p xs) ≡ false
found-Mem p xs m h = elim (Option-cases (find p xs)) [
  | inl missing ↦ absurd (omega (arith, count-Mem p xs m h, count-find-none p xs missing))
  | inr (y, found) ↦ rw found refl
]

-- The open conversation that a message goes to.
abbrev Target : Db → Db → ℕ → ℕ → Type 0
Target db db₁ account_id id =
    (c : SupportConversation) × Memᴰ c db₁.conversations
    × (c.id ≡ id)
    × (is_open_of account_id c ≡ true)
    × (db₁.messages ≡ db.messages)

get_or_create-Target :
    (db : Db) (now new_id account_id : ℕ)
    → Target db
        (get_or_create_open_conversation db db now new_id account_id).1
        account_id
        (get_or_create_open_conversation db db now new_id account_id).0
unfolding get_or_create_open_conversation open_conversation
get_or_create-Target db now new_id account_id =
    elim (Option-cases (open_conversation db account_id)) [
      | inl missing ↦
          rw (missing, get_or_create_open_conversation)
            (
              new_conversation now new_id account_id none,
              Mem-insert (new_conversation now new_id account_id none) db.conversations,
              refl,
              rw (==_refl account_id) refl,
              refl,
            )
      | inr (c, found) ↦
          let (m, open_c) = Mem-select (is_open_of account_id) db.conversations (
            Mem-sort_by newer_conversation (select (is_open_of account_id) db.conversations)
              (Mem-first _ found)) in
          rw (found, get_or_create_open_conversation) (c, m, refl, open_c, refl)
    ]

-- The message is stored, last, under an open conversation of the account.
abbrev pub Landed : Db → ℕ → ℕ → ℕ → MessageInput → ℕ × Db → Type 0
Landed db now message_id account_id input (id, db') =
    (1 ≤ count (λ c. c.id == id && is_open_of account_id c) db'.conversations)
    × (db'.messages
        ≡ insert (new_message now message_id id SupportMessageDirection.user_to_admin input)
            db.messages)

appended :
    (db db₁ : Db) (now message_id account_id id : ℕ) (input : MessageInput)
    → Target db db₁ account_id id
    → (db' : Db) × (append_message db₁ now message_id id SupportMessageDirection.user_to_admin input
        ≡ ok db')
      × Landed db now message_id account_id input (id, db')
unfolding append_message conversation_of update_conversation
appended db db₁ now message_id account_id id input (c, m, same, open_c, kept) =
    let here : (c.id == id) ≡ true = rw same (==_refl id) in
    let there : is_none (find (λ x. x.id == id) db₁.conversations) ≡ false =
      found-Mem (λ x. x.id == id) db₁.conversations m here in
    (
      update_conversation id (touch now) (record db₁ {
        messages =
            insert (new_message now message_id id SupportMessageDirection.user_to_admin input)
              db₁.messages;
      }),
      rw there refl,
      (
        omega (
          arith,
          count-update_same (λ x. x.id == id && is_open_of account_id x) (λ x. x.id == id)
              (touch now) db₁.conversations (λ x h. refl),
          count-Mem (λ x. x.id == id && is_open_of account_id x) db₁.conversations m
              (rw (here, open_c) refl),
        ),
        ap (insert (new_message now message_id id SupportMessageDirection.user_to_admin input))
            kept,
      ),
    )

-- From tables without conversations, whatever the methods have done, each run alone, no account has two
-- open conversations; and a message of a user that names none goes through: it is stored, after the
-- others, under an open conversation of the user's account, the one that there is, or a new one.
pub message-lands :
    (db db' : Db) (now new_id message_id account_id : ℕ) (input : MessageInput)
    → db.conversations ≡ []
    → SupportSteps db db'
    → One db'
      × ((sent : ℕ × Db) × (append_user_message db' now new_id message_id account_id none input
            ≡ ok sent)
          × One sent.1
          × Landed db' now message_id account_id input sent)
unfolding count append_user_message
message-lands db db' now new_id message_id account_id input empty steps =
    let one : One db' = steps-One steps (λ k. rw empty (omega arith)) in
    let (db₂, went, landed) =
      appended db' (get_or_create_open_conversation db' db' now new_id account_id).1 now message_id
        account_id _ input (get_or_create-Target db' now new_id account_id) in
    let sent : append_user_message db' now new_id message_id account_id none input
        ≡ ok ((get_or_create_open_conversation db' db' now new_id account_id).0, db₂) =
      rw went refl in
    (
      one,
      (
        _,
        sent,
        append_user_message-One db' now new_id message_id account_id none input _ db₂ sent one,
        landed,
      ),
    )

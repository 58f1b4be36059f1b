-- ===== src/Tests/Supporting.antt =====
-- A conversation that is closed, and the next message of its user.
use ruznamo_backend.Common.{◌≡◌, refl, none, some, ok, ℕ, codes}
use ruznamo_backend.Db.{Db}
use ruznamo_backend.Telegram.Support.{
  MessageInput, create_conversation, append_user_message, close_conversation,
}
use ruznamo_backend.Telegram.Support.One.{One, SupportStep, SupportSteps}
use ruznamo_backend.Telegram.Support.Landing.{Landed, message-lands}
use ruznamo_backend.Tests.Shop.{shop, runs, value}

abbrev hello : MessageInput
hello = record {
  content_type = none;
  text = some (codes " hello ");
  caption = none;
  file_id = none;
  telegram_message_id = none;
}

abbrev asked : Db
asked = (create_conversation shop shop 1000 1 41 (codes "PAYMENT")).1

abbrev done : Db
done = value asked (close_conversation asked 2000 1)

closing : close_conversation asked 2000 1 ≡ ok done
unfolding runs
closing = refl

abbrev answered : ℕ × Db
answered = value (0, done) (append_user_message done 3000 2 9 41 none hello)

answered_test : answered.0 ≡ 2
unfolding runs
answered_test = refl

message-lands_example :
    One done
    × ((sent : ℕ × Db) × (append_user_message done 3000 2 9 41 none hello ≡ ok sent)
        × One sent.1
        × Landed done 3000 9 41 hello sent)
message-lands_example = message-lands shop done 3000 2 9 41 hello refl (
    SupportSteps.step (SupportStep.conversation_created 1000 1 41 (codes "PAYMENT"))
      (SupportSteps.step (SupportStep.conversation_closed 2000 1 closing) SupportSteps.stay))

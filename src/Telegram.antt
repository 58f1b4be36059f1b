-- ===== src/Telegram.antt =====
-- What ties a license, a device and a Telegram account: licenses/telegram-license-link.service.ts and
-- auth/telegram-auth.service.ts; and the conversations of telegram/support-conversation.service.ts.
pub mod Links
pub mod SignIn
pub mod Support

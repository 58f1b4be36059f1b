-- ===== src/Lib.antt =====
-- The licensing backend of Ruznamo: a NestJS service over PostgreSQL that sells license keys through a
-- Telegram bot, activates them on devices of a mobile application, and answers what a user may use.
--
-- How the parts interact. The bot creates an order, attaches a payment method and submits a receipt
-- (src/payments/order.service.ts, with the prices of src/payments/payment-config.service.ts). An
-- administrator approves or rejects it (src/payments/payment-approval.service.ts, with the reasons of
-- src/payments/rejection-reason.ts); an approval issues a license for the order
-- (src/licenses/license-issuance.service.ts). The application activates the license's key on a device
-- (src/licenses/licenses.service.ts), within the device limit of the license's plan; when the license is
-- full, its holder confirms the replacement of a device through the bot
-- (src/licenses/device-replacement.service.ts). A Telegram account becomes the holder of a license by a link
-- that the application opens (src/licenses/telegram-license-link.service.ts), or by a one-time code
-- (src/auth/telegram-auth.service.ts), which also grants the recovery of a license without its key.
-- src/entitlements/entitlement.service.ts answers from all these tables whether an installation has access.
-- Beside this stand the sessions of administrators, the releases that the application updates itself from,
-- the privacy policy that it shows, and the conversations of the bot's support.
--
-- Files.
--   Common       helpers: results and do blocks (Results), tables as lists with the queries of the
--                ORM (Tables, Sorting), JavaScript's text functions (Text), counting and ordering
--                lemmas (Counting, Best)
--   Db           prisma/schema.prisma: enums (Enums), rows (Tables), and transactions (Actions)
--   Licenses     Key: src/security/license-key.service.ts; Slots: the shared checks,
--                src/licenses/active-license-activation.ts and
--                src/admin/common/plan-features.util.ts; Activate: `activate` of
--                src/licenses/licenses.service.ts; Replacement: device-replacement.service.ts; Issuance:
--                license-issuance.service.ts; Recovery: activateViaTelegram and replaceDeviceViaGrant of
--                src/licenses/license-recovery.service.ts and assertValidGrant of
--                src/auth/telegram-auth.service.ts. The modules below each prove what their name says
--   Entitlements Features, Pick, Queries, Snapshot: entitlement.service.ts
--   Payments     Prices, Orders, Receipts; Approval and Refusal: approve and reject of
--                src/payments/payment-approval.service.ts; Rejection: the reasons; Machine: the methods
--                of these two services on orders as one step relation, in any order and with any input
--   Sessions     src/auth/auth.service.ts without registerDevice, and the dates of
--                src/devices/device-telemetry.service.ts: refresh tokens and logout. A token is what
--                `hash` is applied to; Live reads what a refresh has checked
--   Telegram     Links: src/licenses/telegram-license-link.service.ts; SignIn:
--                src/auth/telegram-auth.service.ts, with `hash_otp` for the hash of a code; Support:
--                src/telegram/support-conversation.service.ts. Run below Links
--                and SignIn reads what a method that went through has checked
--   Devices      Category: src/devices/resolve-user-category.util.ts and buildProfilePatch; Registration:
--                registerDevice of src/auth/auth.service.ts and `register` of
--                src/devices/devices.service.ts; Revocation: `revoke` of the latter and
--                src/devices/revoke-device-installation.ts
--   Admin        Licenses: src/admin/licenses/admin-licenses.service.ts, the methods that write; Auth:
--                src/admin/auth/admin-auth.service.ts, its profile and password in Account below, with
--                `verify` for bcrypt's comparison
--   Releases     src/admin/releases/admin-releases.service.ts: the upload and its draft; Publishing: publish,
--                archive, deleteDraft and purgeFile; Updates: src/app-update/app-update.service.ts.
--                Deletions of stored objects are left out, but for those whose failure is answered
--   Privacy      src/privacy/privacy-policy.service.ts, without sanitizePrivacyContent
--   Tests        concrete tables (Shop), runs on them, and each theorem applied there
--
-- State and operations. All tables are one record, Db. A method is a function of the tables and of the
-- time, the id of a new row and the random values that it would draw; it answers a Result, an exception
-- being a value, or, where it commits before it may throw, a pair of a Result and the tables. A function
-- has its method's name in snake case: issueLicense is issue_license. Some methods take the tables that their
-- writes meet as an argument of its own (`met`, and `seen` after a unique violation), beside the tables that
-- they read (`db`), so that other transactions between the reads and the writes are a choice of these
-- arguments. They are activate, issueLicense (so approve and createManual, too), reject, both kinds of refresh,
-- confirmLink, linkHolderFromVerifiedChallenge, confirmReplacement and executeReplacement, verifyOtp,
-- saveDraft, createConversation, getOrCreateOpenConversation, and the publication of a release and of the
-- privacy policy. Every other method is one step on the tables, and so are the methods of a step relation
-- (Machine, LinkStep, SignStep and their like), in which `met` is `db`.
--
-- Simplifications. A method without `met` is modelled as if nothing ran between its statements, also where the
-- source reads outside its transaction or has none: revokeDeviceAsHolder, replaceDeviceViaGrant,
-- activateViaTelegram, submitReceipt and the other methods on orders, appendUserMessage and the other methods
-- on support conversations, the link at the end of a sign-in, the other methods on releases, the revocation and
-- the registration of devices, and what administrators change. In a method with `met` all writes meet the same
-- tables, also where they are separate statements. Methods that overlap in the source can do what no order of
-- them does. Unless a theorem has `met` among its arguments, it is about methods that run alone, with no other
-- transaction in between. An id, a token and a hash are
-- natural numbers; a time is a number of milliseconds, read once in each method. An activation is named by its
-- license and device, whose pair is unique in the schema. A license's row carries its plan. A text is a list of
-- UTF-16 units; its case is mapped on the letters a to z only, and its white space is the characters that Text
-- lists. A number that parseInt reads is exact, also above 2^53. calculateExpiresAt counts days of 24 hours.
-- node's hashes are the parameter `hash`. A foreign key finds its row, but for a support message's. Lines of metadata, addresses and messages
-- are left out. After a failed create the catch blocks query on in the same transaction, as the source is
-- written; PostgreSQL may refuse that. Nothing runs on fuel: every loop follows a list.
--
-- Not modelled: the bot's menus and texts, payment methods and the creation of Telegram accounts, plans and
-- the reset of data by administrators, the inspection of an APK and the signed manifest of a release,
-- storage, configuration and the admin panel. Most of it only reads and formats rows, or calls libraries.
-- What the administration does is no step of Machine.
pub mod Common
pub mod Db
pub mod Licenses
pub mod Entitlements
pub mod Payments
pub mod Sessions
pub mod Telegram
pub mod Devices
pub mod Admin
pub mod Releases
pub mod Privacy
pub mod Tests

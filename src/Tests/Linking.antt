-- ===== src/Tests/Linking.antt =====
-- A license that a Telegram account claims, and a device that the holder disconnects.
use ruznamo_backend.Common.{
  ◌≡◌, ◌+◌, refl, true, none, some, ok, err, [], ◌∷◌, arith, link_challenge_used,
}
use ruznamo_backend.Db.{Db, License, IssueSource, kept}
use ruznamo_backend.Licenses.Slots.{active_count}
use ruznamo_backend.Licenses.Replacement.{license_of}
use ruznamo_backend.Licenses.Replacement.Slots.{PairsUnique}
use ruznamo_backend.Telegram.Links.{Linked, HolderRevoked, confirm_link, revoke_device_as_holder}
use ruznamo_backend.Telegram.Links.Holder.{confirms, HolderMoves, LinkStep-HolderMoves}
use ruznamo_backend.Telegram.Links.Once.{link-once}
use ruznamo_backend.Telegram.Links.Disconnect.{disconnect-frees}
use ruznamo_backend.Tests.Shop.{shop, runs, value, full_license}

-- Account 41 paid for the license on Telegram and has not claimed it.
abbrev unclaimed : License
unclaimed = record full_license {
  holder = none;
  purchaser = some 41;
  issue_source = some IssueSource.telegram_payment;
}

abbrev linking : Db
linking = record shop {
  licenses = unclaimed ∷ [];
  link_challenges =
      record {
        id = 72;
        token = 17;
        license_id = 32;
        device_id = 11;
        mobile_user_id = 1;
        expires_at = 2000;
        consumed_at = none;
      }
      ∷ [];
}

abbrev linked : Linked × Db
linked =
    value (record { already_linked = true; license_id = 0 }, linking)
      (confirm_link linking linking 1000 17 41 4100)

link_runs : confirm_link linking linking 1000 17 41 4100 ≡ ok (linked.0, linked.1)
unfolding runs
link_runs = refl

link_moves : kept linking (confirm_link linking linking 1000 17 41 4100) ≡ linked.1
unfolding runs
link_moves = refl

there : license_of linking 32 ≡ some unclaimed
unfolding runs
there = refl

abbrev claimed : License
claimed = record unclaimed { holder = some 41; holder_linked_at = some 1000 }

claimed_found : license_of linked.1 32 ≡ some claimed
unfolding runs
claimed_found = refl

LinkStep-HolderMoves_example :
    (m : License) × (license_of (kept linking (confirm_link linking linking 1000 17 41 4100)) 32
      ≡ some m)
    × HolderMoves unclaimed m
LinkStep-HolderMoves_example =
    LinkStep-HolderMoves linking (kept linking (confirm_link linking linking 1000 17 41 4100)) 32
      unclaimed (confirms linking 1000 17 41 4100) there

abbrev disconnected : HolderRevoked × Db
disconnected =
    value
      (
        record {
          license_id = 0;
          device_id = 0;
          devices_used_before = 0;
          devices_used_after = 0;
          device_limit = 0;
        },
        shop,
      )
      (revoke_device_as_holder linked.1 1000 41 32 12)

disconnect_runs :
    revoke_device_as_holder linked.1 1000 41 32 12 ≡ ok (disconnected.0, disconnected.1)
unfolding runs
disconnect_runs = refl

link-once_example : confirm_link linked.1 linking 1500 17 42 4200 ≡ err link_challenge_used
link-once_example =
    link-once linking 1000 17 41 4100 linked.0 linked.1 linking 1500 42 4200 link_runs

pairs : PairsUnique linked.1.activations
unfolding runs
pairs l d = ground arith

disconnect-frees_example :
    (active_count disconnected.1 32 + 1 ≡ active_count linked.1 32)
    × (disconnected.0.devices_used_before ≡ active_count linked.1 32)
    × (disconnected.0.devices_used_after ≡ active_count disconnected.1 32)
disconnect-frees_example =
    disconnect-frees linked.1 1000 41 32 12 disconnected.0 disconnected.1 pairs disconnect_runs

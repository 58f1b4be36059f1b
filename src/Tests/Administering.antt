-- ===== src/Tests/Administering.antt =====
-- A license that an administrator revokes.
use ruznamo_backend.Common.{◌≡◌, refl, none, some, ok, err, license_revoked, ◌≢◌, [], ◌∷◌}
use ruznamo_backend.Db.{Db, License}
use ruznamo_backend.Licenses.Activate.{license_of_key, activate_tx}
use ruznamo_backend.Licenses.Replacement.{license_of, create_challenge}
use ruznamo_backend.Entitlements.Types.{EntitlementSnapshot}
use ruznamo_backend.Entitlements.Pick.{pick_best_active_license}
use ruznamo_backend.Entitlements.Snapshot.{get_snapshot, snapshot_for, candidates, license_view}
use ruznamo_backend.Admin.Licenses.{revoke}
use ruznamo_backend.Admin.Licenses.Revoked.{revoke-closes}
use ruznamo_backend.Tests.Shop.{shop, runs, value, session, weigh, key, owner, slot, fresh_license}

-- The license gives its user access until it is revoked.
abbrev used : Db
used = record shop { activations = slot 31 11 ∷ [] }

usable_before : pick_best_active_license 1000 (candidates used 1) ≡ some fresh_license
unfolding runs
usable_before = refl

abbrev after : Db
after = value used (revoke used 1000 31 9 none)

revoking : revoke used 1000 31 9 none ≡ ok after
unfolding runs
revoking = refl

of_key : license_of_key weigh after key ≡ license_of after 31
unfolding runs
of_key = refl

abbrev snapshot : EntitlementSnapshot
snapshot = snapshot_for after 2000 (some 21) owner

asked : get_snapshot after 2000 1 (some 21) ≡ ok snapshot
unfolding runs
asked = refl

revoke-closes_example :
    (l : License) × (license_of after 31 ≡ some l)
    × (pick_best_active_license 2000 (candidates after 1) ≢ some l)
    × (snapshot.license ≢ some (license_view l))
    × (activate_tx weigh after after after 2000 session key ≡ err license_revoked)
    × (create_challenge weigh after 2000 73 8 session key ≡ err license_revoked)
revoke-closes_example =
    revoke-closes weigh used 1000 31 9 none after after after 2000 73 8 1 (some 21) snapshot session
      key revoking of_key asked

-- ===== src/Scenarios/Rules.antt =====
-- Breakers, roles and pauses, by src/breaker.rs, src/api/role.rs and src/scheduler.rs.
use xrelease.Base.{
  ◌≡◌, ◌⊎◌, String, true, false, none, some, List, [], ◌∷◌, arith, map, if◌then◌else◌, leb, min,
  ◌+◌, ◌*◌, ◌^◌,
}
use xrelease.Text.{to_ascii_lowercase}
use xrelease.Role.{viewer, for_org, resolve_app_role, resolve_resolved_roles}
use xrelease.Role.Grants.{Claims, IsHighest, for_org-Claims, resolve_app_role-IsHighest}
use xrelease.Scheduler.{max_backoff}
use xrelease.Scheduler.Sweep.{pause_after, failures as failed_polls, next_backoff-failures}
use xrelease.Breaker.{record_outcome, allows}
use xrelease.Breaker.History.{Outcome, after, failures, latest, open_until-after, reports_opening}

abbrev history : List Outcome
history =
    record { at = 30; success = false }
    ∷ record { at = 20; success = false }
    ∷ record { at = 10; success = true }
    ∷ []

open_until_example :
    (after 2 60 history).open_until
    ≡ (if leb 2 (failures history) then some (latest history + 60) else none)
open_until_example = open_until-after 2 60 history (omega arith) (omega arith)

opening_example :
    let (b', reported) = record_outcome (after 2 60 history) 100 false 2 60 in
    (reported ≡ true → (allows (after 2 60 history) 100 ≡ true) × (allows b' 100 ≡ false))
    × (allows (after 2 60 history) 100 ≡ true → allows b' 100 ≡ false → reported ≡ true)
opening_example = reports_opening (after 2 60 history) 100 2 60 false (omega arith)

abbrev member_claims : List String
member_claims = "XRelease-Viewer" ∷ "xrelease-admin:platform" ∷ []

abbrev admins : List String
admins = "xrelease-admin" ∷ []

abbrev operators : List String
operators = "xrelease-operator" ∷ []

abbrev viewers : List String
viewers = "xrelease-viewer" ∷ []

for_org_example :
    let roles = resolve_resolved_roles member_claims admins operators viewers viewer in
    (for_org roles (some "platform") ≡ roles.global)
    ⊎ Claims admins operators viewers member_claims "platform" (for_org roles (some "platform"))
for_org_example = for_org-Claims member_claims admins operators viewers viewer "platform"

IsHighest-example :
    IsHighest admins operators viewers
      (map to_ascii_lowercase member_claims)
      viewer
      (resolve_app_role member_claims admins operators viewers viewer)
IsHighest-example = resolve_app_role-IsHighest member_claims admins operators viewers viewer

pauses_example :
    pause_after (false ∷ false ∷ true ∷ [])
    ≡ min (5 * 2 ^ failed_polls (false ∷ false ∷ true ∷ [])) max_backoff
pauses_example = next_backoff-failures (false ∷ false ∷ true ∷ [])

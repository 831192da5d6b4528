-- ===== src/Role.antt =====
-- src/api/role.rs: roles, and their resolution from the claims of an identity provider.
pub mod Grants
use xrelease.Base.{
  ℕ, String, Bool, true, false, Option, none, some, List, [], ◌∷◌, map, any, leb, str_eq, ◌&&◌,
  if◌then◌else◌,
}
use xrelease.Text.{trim, to_ascii_lowercase, split_once}

pub data AppRole : Type 0 where
  viewer operator admin : AppRole

unfoldable pub parse : String → Option AppRole
parse value =
    let v = to_ascii_lowercase (trim value) in
    if str_eq v "viewer"
    then some viewer
    else if str_eq v "operator"
    then some operator
    else if str_eq v "admin"
    then some admin
    else none

unfoldable pub as_str : AppRole → String
as_str viewer = "viewer"
as_str operator = "operator"
as_str admin = "admin"

abbrev pub rank : AppRole → ℕ
rank viewer = 1
rank operator = 2
rank admin = 3

unfoldable pub allows : AppRole → AppRole → Bool
allows role minimum = leb (rank minimum) (rank role)

unfoldable pub higher : AppRole → AppRole → AppRole
higher a b = if leb (rank b) (rank a) then a else b

-- `per_org` is a map by organization, here a list of its entries.
pub record ResolvedRoles : Type 0 where
  pub global : AppRole
  pub per_org : List (String × AppRole)

unfoldable pub find_grant : String → List (String × AppRole) → Option AppRole
find_grant org [] = none
find_grant org ((o, role) ∷ grants) = if str_eq o org then some role else find_grant org grants

unfoldable pub scoped_or_global : AppRole → Option AppRole → AppRole
scoped_or_global global none = global
scoped_or_global global (some scoped) = higher scoped global

unfoldable pub for_org : ResolvedRoles → Option String → AppRole
unfolding scoped_or_global
for_org roles none = roles.global
for_org roles (some org) = scoped_or_global roles.global (find_grant org roles.per_org)

-- Whether a claim, in lower case, is one of the aliases.
abbrev pub has_alias : List String → List String → Bool
has_alias normalized aliases =
    any (λ alias. any (λ role. str_eq role (to_ascii_lowercase alias)) normalized) aliases

unfoldable pub promote : List String → AppRole → List String → AppRole → AppRole
promote normalized app_role aliases resolved =
    if has_alias normalized aliases && leb (rank resolved) (rank app_role)
    then app_role
    else resolved

unfoldable pub resolve_app_role :
    List String → List String → List String → List String → AppRole → AppRole
resolve_app_role claimed admin_aliases operator_aliases viewer_aliases fallback =
    let normalized = map to_ascii_lowercase claimed in
    promote normalized viewer viewer_aliases (
      promote normalized operator operator_aliases
        (promote normalized admin admin_aliases fallback))

unfoldable pub role_for_alias : String → List String → List String → List String → Option AppRole
role_for_alias alias admin_aliases operator_aliases viewer_aliases =
    let matches = any (λ a. str_eq (to_ascii_lowercase a) (to_ascii_lowercase (trim alias))) in
    if matches admin_aliases
    then some admin
    else if matches operator_aliases
    then some operator
    else if matches viewer_aliases
    then some viewer
    else none

-- `per_org.entry(org).and_modify(…).or_insert(role)`
unfoldable pub add_grant : String → AppRole → List (String × AppRole) → List (String × AppRole)
add_grant org role [] = (org, role) ∷ []
add_grant org role ((o, r) ∷ grants) =
    let rest = add_grant org role grants in
    if str_eq o org then (o, higher r role) ∷ grants else (o, r) ∷ rest

-- What one claim grants: a role for an organization, if it is a scoped alias.
unfoldable pub scoped_grant :
    String → List String → List String → List String → Option (String × AppRole)
scoped_grant group admin_aliases operator_aliases viewer_aliases = of_split (split_once b':' group)
  where
    of_role : String → Option AppRole → Option (String × AppRole)
    of_role org none = none
    of_role org (some role) = some (org, role)

    of_split : Option (String × String) → Option (String × AppRole)
    of_split none = none
    of_split (some (alias, org)) =
        if str_eq (trim org) ""
        then none
        else of_role (trim org) (role_for_alias alias admin_aliases operator_aliases viewer_aliases)

unfoldable pub grant_of :
    Option (String × AppRole) → List (String × AppRole) → List (String × AppRole)
grant_of none grants = grants
grant_of (some (org, role)) grants = add_grant org role grants

unfoldable pub grant_all :
    List String
    → List String
    → List String
    → List (String × AppRole)
    → List String
    → List (String × AppRole)
unfolding grant_of
grant_all admins operators viewers grants [] = grants
grant_all admins operators viewers grants (group ∷ claimed) =
    grant_all admins operators viewers
      (grant_of (scoped_grant group admins operators viewers) grants) claimed

unfoldable pub resolve_resolved_roles :
    List String → List String → List String → List String → AppRole → ResolvedRoles
resolve_resolved_roles claimed admin_aliases operator_aliases viewer_aliases fallback = record {
  global = resolve_app_role claimed admin_aliases operator_aliases viewer_aliases fallback;
  per_org = grant_all admin_aliases operator_aliases viewer_aliases [] claimed;
}

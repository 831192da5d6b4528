-- ===== src/Role/Grants.antt =====
-- Which roles the claims of a principal can give it.
use mathlib.Core.List.{Mem, mem-cons_self, mem-cons_of_mem}
use xrelease.Base.{
  ◌≤◌, ◌≡◌, ◌⊎◌, inl, inr, refl, sym, ◌∙◌, String, Bool, true, Option, none, some, List, [], ◌∷◌,
  map, leb, str_eq, ◌&&◌, arith, eq_iff, Bool-cases, Option-cases,
}
use xrelease.Text.{to_ascii_lowercase}
use xrelease.Role.{
  AppRole, viewer, operator, admin, rank, higher, find_grant, for_org, scoped_or_global, has_alias,
  promote, resolve_app_role, add_grant, scoped_grant, grant_of, grant_all, resolve_resolved_roles,
}

-- The highest of a fallback and the roles that have a claimed alias.
pub record IsHighest (admins operators viewers normalized : List String) (fallback role : AppRole)
    : Type 0 where
  pub at_least : rank fallback ≤ rank role
  pub above_admin : has_alias normalized admins ≡ true → rank admin ≤ rank role
  pub above_operator : has_alias normalized operators ≡ true → rank operator ≤ rank role
  pub above_viewer : has_alias normalized viewers ≡ true → rank viewer ≤ rank role
  pub source :
      (role ≡ fallback)
      ⊎ (((role ≡ admin) × (has_alias normalized admins ≡ true))
          ⊎ (((role ≡ operator) × (has_alias normalized operators ≡ true))
              ⊎ ((role ≡ viewer) × (has_alias normalized viewers ≡ true))))

module _ (normalized : List String) (role : AppRole) (aliases : List String)
    (before : AppRole) where
  abbrev after : AppRole
  after = promote normalized role aliases before

  abbrev takes : Bool
  takes = has_alias normalized aliases && leb (rank before) (rank role)

  promote-le : rank before ≤ rank after
  unfolding promote
  promote-le = elim (Bool-cases takes) [
    | inl e ↦ rw (e, promote) (ground arith)
    | inr e ↦ rw (e, promote) (omega arith)
  ]

  promote-above : has_alias normalized aliases ≡ true → rank role ≤ rank after
  unfolding promote
  promote-above h = elim (Bool-cases takes) [
    | inl e ↦ rw (e, promote) (omega arith)
    | inr e ↦ rw (e, promote) (ground (arith, h, e))
  ]

  promote-source : (after ≡ before) ⊎ ((after ≡ role) × (has_alias normalized aliases ≡ true))
  unfolding promote
  promote-source = elim (Bool-cases takes) [
    | inl e ↦
        let h : has_alias normalized aliases ≡ true = ground arith in
        rw (e, promote) (inr (refl, h))
    | inr e ↦ rw (e, promote) (inl refl)
  ]

-- The role that is resolved from claims is the highest of the fallback and the roles that have a
-- claimed alias, in whatever letter case: it is at least each of them, and it is one of them.
pub resolve_app_role-IsHighest :
    (claimed admins operators viewers : List String) (fallback : AppRole)
    → IsHighest admins operators viewers
        (map to_ascii_lowercase claimed)
        fallback
        (resolve_app_role claimed admins operators viewers fallback)
unfolding resolve_app_role
resolve_app_role-IsHighest claimed admins operators viewers fallback =
    let n = map to_ascii_lowercase claimed in
    let r1 = promote n admin admins fallback in
    let r2 = promote n operator operators r1 in
    let le1 = promote-le n admin admins fallback in
    let le2 = promote-le n operator operators r1 in
    let le3 = promote-le n viewer viewers r2 in
    record {
      at_least = omega (arith, le1, le2, le3);
      above_admin = λ h. omega (arith, promote-above n admin admins fallback h, le2, le3);
      above_operator = λ h. omega (arith, promote-above n operator operators r1 h, le3);
      above_viewer = λ h. promote-above n viewer viewers r2 h;
      source = elim (promote-source n viewer viewers r2) [
        | inr s3 ↦ inr (inr (inr s3))
        | inl e3 ↦ elim (promote-source n operator operators r1) [
          | inr s2 ↦ inr (inr (inl (e3 ∙ s2.0, s2.1)))
          | inl e2 ↦ elim (promote-source n admin admins fallback) [
            | inr s1 ↦ inr (inl (e3 ∙ e2 ∙ s1.0, s1.1))
            | inl e1 ↦ inl (e3 ∙ e2 ∙ e1)
          ]
        ]
      ];
    }

-- A grant that is found after one more is that one's, or was there before.
find-add_grant :
    (org o : String) (role r : AppRole) (grants : List (String × AppRole))
    → find_grant org (add_grant o role grants) ≡ some r
    → (find_grant org grants ≡ some r) ⊎ ((o ≡ org) × (role ≡ r))
unfolding find_grant add_grant higher
find-add_grant org o role r [] e = elim (Bool-cases (str_eq o org)) [
  | inl h ↦ let f : role ≡ r = ground (arith, rw h at e) in inr ((eq_iff o org).0 h, f)
  | inr h ↦ absurd (ground (arith, rw h at e))
]
find-add_grant org o role r ((x, q) ∷ grants) e = elim (Bool-cases (str_eq x o)) [
  | inl h ↦ elim (Bool-cases (str_eq x org)) [
    | inl k ↦ elim (Bool-cases (leb (rank role) (rank q))) [
      | inl l ↦ rw k (inl (rw (h, k, l) at e))
      | inr l ↦
          let f : role ≡ r = ground (arith, rw (h, k, l) at e) in
          inr (sym ((eq_iff x o).0 h) ∙ (eq_iff x org).0 k, f)
    ]
    | inr k ↦ rw k (inl (rw (h, k) at e))
  ]
  | inr h ↦ elim (Bool-cases (str_eq x org)) [
    | inl k ↦ rw k (inl (rw (h, k) at e))
    | inr k ↦ rw k (find-add_grant org o role r grants (rw (h, k) at e))
  ]
]

module _ (admins operators viewers : List String) where
  -- Some claim grants the role for the organization.
  abbrev pub Claims : List String → String → AppRole → Type 0
  Claims claimed org role =
      (group : String) × (Mem group claimed
        × (scoped_grant group admins operators viewers ≡ some (org, role)))

  later :
      (group : String) (claimed : List String) (org : String) (role : AppRole)
      → Claims claimed org role
      → Claims (group ∷ claimed) org role
  later group claimed org role c = (c.0, (mem-cons_of_mem group c.1.0, c.1.1))

  granted :
      (group : String) (given : Option (String × AppRole)) (grants : List (String × AppRole))
      (org : String) (r : AppRole)
      → scoped_grant group admins operators viewers ≡ given
      → find_grant org (grant_of given grants) ≡ some r
      → (find_grant org grants ≡ some r)
        ⊎ (scoped_grant group admins operators viewers ≡ some (org, r))
  unfolding grant_of
  granted group none grants org r g e = inl e
  granted group (some (o, role)) grants org r g e = elim (find-add_grant org o role r grants e) [
    | inl h ↦ inl h
    | inr h ↦ inr (g ∙ rw (h.0, h.1) refl)
  ]

  all_granted :
      (grants : List (String × AppRole)) (claimed : List String) (org : String) (r : AppRole)
      → find_grant org (grant_all admins operators viewers grants claimed) ≡ some r
      → (find_grant org grants ≡ some r) ⊎ Claims claimed org r
  unfolding grant_all
  all_granted grants [] org r e = inl e
  all_granted grants (group ∷ claimed) org r e =
      let given = scoped_grant group admins operators viewers in
      elim (all_granted (grant_of given grants) claimed org r e) [
        | inr c ↦ inr (later group claimed org r c)
        | inl h ↦ elim (granted group given grants org r refl h) [
          | inl old ↦ inl old
          | inr new ↦ inr (group, (mem-cons_self, new))
        ]
      ]

-- A principal's role for an organization is its global role, or a role that one of its claims
-- grants for exactly that organization: no claim scoped to one organization gives a role in
-- another.
pub for_org-Claims :
    (claimed admins operators viewers : List String) (fallback : AppRole) (org : String)
    → let roles = resolve_resolved_roles claimed admins operators viewers fallback in
      (for_org roles (some org) ≡ roles.global)
      ⊎ Claims admins operators viewers claimed org (for_org roles (some org))
unfolding resolve_resolved_roles for_org scoped_or_global higher find_grant
for_org-Claims claimed admins operators viewers fallback org =
    let roles = resolve_resolved_roles claimed admins operators viewers fallback in
    elim (Option-cases (find_grant org roles.per_org)) [
      | inl e ↦ inl (rw (e, scoped_or_global) refl)
      | inr (r, e) ↦ elim (Bool-cases (leb (rank roles.global) (rank r))) [
        | inr l ↦ inl (rw (e, scoped_or_global, l) refl)
        | inl l ↦ elim (all_granted admins operators viewers [] claimed org r e) [
          | inl old ↦ absurd (cc)
          | inr c ↦ inr (rw (e, scoped_or_global, l) c)
        ]
      ]
    ]

-- ===== src/Tenancy/Access/Visible.antt =====
-- Who passes the authorization of a project.
use logingestor.Prelude.{
  ◌≡◌, ◌↔◌, refl, ◌∙◌, ap, Bool, true, false, ◌&&◌, ◌||◌, none, some, List, [], ◌∷◌, ◌++◌, any,
  find, select, map, ◌==◌, ==_iff, arith, Bool-cases, Option-cases, inl, inr,
}
use logingestor.Prelude.Result.{ok}
use logingestor.Alerting.Model.{Uuid}
use logingestor.Tenancy.Model.{
  Role, is_super_admin, Org, OrgMember, OrgProject, Tenants, TenantCall, query_project,
  query_user_orgs, has_access_row, TenantEnv,
}
use logingestor.Tenancy.Orgs.{roles_of, orgs_of_user}
use logingestor.Tenancy.Access.{
  has_project_id, administers, is_grant, can_see, has_access, query_project_by_id, Caller, role_at,
  admin_role, caller_org_role, authorize_project_access,
}

-- The project exists and the user administers its organization or has a grant.
abbrev pub visible : Uuid → Tenants → Uuid → Bool
visible user w project = any (λ p. has_project_id project p && can_see user w p) w.projects

role_at-append :
    (org : Uuid) (xs ys : List (Uuid × Role))
    → admin_role (role_at org (xs ++ ys)) ≡ true
    → (admin_role (role_at org xs) || admin_role (role_at org ys)) ≡ true
role_at-append org [] ys h = h
role_at-append org ((o, r) ∷ xs) ys h = ground (arith, h, role_at-append org xs ys)

module _ (user org : Uuid) where
  -- The role that is found for an organization is that of a member row.
  role_of_org :
      (o : Uuid) (members : List OrgMember)
      → admin_role (
          role_at org (
            map
              (λ (m : OrgMember). (o, m.role))
              (select (λ (m : OrgMember). m.org_id == o && m.user_id == user) members)))
        ≡ true
      → any (administers org user) members ≡ true
  role_of_org o [] h = absurd (ground (arith, h))
  role_of_org o (m ∷ members) h = ground (arith, h, role_of_org o members)

  admin_member :
      (members : List OrgMember) (os : List Org)
      → admin_role (role_at org (roles_of user members os)) ≡ true
      → any (administers org user) members ≡ true
  unfolding roles_of
  admin_member members [] h = absurd (ground (arith, h))
  admin_member members (o ∷ os) h =
      let either = role_at-append org _ (roles_of user members os) h in
      ground (arith, either, role_of_org o.id members, admin_member members os)

found_visible :
    (user project : Uuid) (w : Tenants) (p : OrgProject) (ps : List OrgProject)
    → find (has_project_id project) ps ≡ some p
    → any (administers p.org_id user) w.members ≡ true
    → any (λ q. has_project_id project q && can_see user w q) ps ≡ true
unfolding can_see
found_visible user project w p [] e a = absurd (ground (arith, e))
found_visible user project w p (q ∷ ps) e a = elim (Bool-cases (has_project_id project q)) [
  | inl t ↦
      let same : q ≡ p = ground (arith, e, t) in
      let admin : any (administers q.org_id user) w.members ≡ true =
        ap (λ (x : OrgProject). any (administers x.org_id user) w.members) same ∙ a in
      ground (arith, t, admin)
  | inr f ↦ ground (arith, f, found_visible user project w p ps (ground (arith, e, f)) a)
]

missing_invisible :
    (user project : Uuid) (w : Tenants) (ps : List OrgProject)
    → find (has_project_id project) ps ≡ none
    → any (λ q. has_project_id project q && can_see user w q) ps ≡ false
missing_invisible user project w [] e = refl
missing_invisible user project w (q ∷ ps) e = ground (arith, e, missing_invisible user project w ps)

-- Where the statements succeed, a caller passes the authorization of a project exactly if it is a super
-- admin or the project is visible to it, and the check changes nothing.
pub authorize_project_access_iff :
    (env : TenantEnv) (c : Caller) (project : Uuid) (w : Tenants)
    → ((call : TenantCall) → env.fails call ≡ false)
    → ((authorize_project_access env c project w ≡ (ok tt, w))
        ↔ ((any is_super_admin c.roles || visible c.user_id w project) ≡ true))
unfolding authorize_project_access caller_org_role query_project_by_id orgs_of_user has_access
authorize_project_access_iff env c project w works =
    elim (Bool-cases (any is_super_admin c.roles)) [
      | inl s ↦ rw s (λ _. refl, λ _. refl)
      | inr s ↦ elim (Option-cases (find (has_project_id project) w.projects)) [
        | inl e ↦
            rw (s, works query_project, e, missing_invisible c.user_id project w w.projects e)
              (λ h. absurd (ground (arith, h)), λ h. absurd (ground (arith, h)))
        | inr (p, e) ↦
            elim (Bool-cases
              (admin_role (role_at p.org_id (roles_of c.user_id w.members w.orgs)))) [
                | inl a ↦
                    rw
                      (
                        s,
                        works query_project,
                        e,
                        works query_user_orgs,
                        a,
                        found_visible c.user_id project w p w.projects e
                            (admin_member c.user_id p.org_id w.members w.orgs a),
                      )
                      (λ _. refl, λ _. refl)
                | inr a ↦ elim (Bool-cases (visible c.user_id w project)) [
                  | inl v ↦
                      rw
                        (
                          s,
                          works query_project,
                          e,
                          works query_user_orgs,
                          a,
                          works has_access_row,
                          v,
                        )
                        (λ _. refl, λ _. refl)
                  | inr v ↦
                      rw
                        (
                          s,
                          works query_project,
                          e,
                          works query_user_orgs,
                          a,
                          works has_access_row,
                          v,
                        )
                        (λ h. absurd (ground (arith, h)), λ h. absurd (ground (arith, h)))
                ]
              ]
      ]
    ]

listed_visible :
    (user project : Uuid) (w : Tenants) (ps : List OrgProject)
    → any (is_grant user project) w.grants ≡ true
    → any (λ p. has_project_id project p && can_see user w p) ps ≡ any (has_project_id project) ps
unfolding can_see
listed_visible user project w [] g = refl
listed_visible user project w (p ∷ ps) g = elim (Bool-cases (has_project_id project p)) [
  | inl t ↦
      let same : p.id ≡ project = (==_iff p.id project).0 t in
      let here : any (is_grant user p.id) w.grants ≡ true =
        ap (λ i. any (is_grant user i) w.grants) same ∙ g in
      ground (arith, t, here)
  | inr f ↦ ground (arith, f, listed_visible user project w ps g)
]

-- With a grant a project is visible exactly if it exists, whether the user is a member or not.
pub granted_visible :
    (user project : Uuid) (w : Tenants)
    → any (is_grant user project) w.grants ≡ true
    → visible user w project ≡ any (has_project_id project) w.projects
granted_visible user project w granted = listed_visible user project w w.projects granted

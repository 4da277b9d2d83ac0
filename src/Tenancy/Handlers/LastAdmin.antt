-- ===== src/Tenancy/Handlers/LastAdmin.antt =====
-- The handlers leave every organization an admin, and its owner a member with its role.
use logingestor.Prelude.{
  ◌≤◌, ◌≡◌, ◌⊎◌, sym, ◌∙◌, ap, true, false, not, some, any, find, All-map, select, length, ◌==◌,
  ==_iff, arith, Bool-cases, inl, inr,
}
use logingestor.Prelude.Rows.{
  IsKeyed, one_per_id, find_only, length-select-without, any_of_positive, any-without,
  any-update_without, any-update_keeps,
}
use logingestor.Prelude.Text.{Text}
use logingestor.Alerting.Model.{Uuid}
use logingestor.Tenancy.Model.{
  Role, is_org_admin, OrgMember, Tenants, remove_member_row, update_role_row, TenantEnv,
}
use logingestor.Tenancy.Orgs.{has_member_id, remove_member, update_member_role}
use logingestor.Tenancy.Handlers.{admin_of, update_role, handle_remove_member}
use logingestor.Tenancy.Handlers.Guard.{
  update_member_role-tables, with_role, remove_member-tables, Guarded, admins, with_role,
  remove_member-tables, update_member_role-tables, handle_remove_member-cases, update_role-cases,
}

abbrev pub member_key : OrgMember → Uuid
member_key m = m.member_id

-- The organization has an admin.
abbrev pub HasAdmin : Uuid → Tenants → Type 0
HasAdmin org w = any (admin_of org) w.members ≡ true

module _ (env : TenantEnv) (w : Tenants) (keyed : IsKeyed member_key w.members) (id : Uuid)
    (m : OrgMember) (found : find (has_member_id id) w.members ≡ some m) where
  -- Another admin is left without the member, if the member is none of the organization or there are two.
  admin_left :
      (org : Uuid)
      → HasAdmin org w
      → (admin_of org m ≡ false) ⊎ (2 ≤ length (select (admin_of org) w.members))
      → any (admin_of org) (select (λ x. not (has_member_id id x)) w.members) ≡ true
  admin_left org h (inl none_of) =
      any-without (admin_of org) (has_member_id id) w.members
        (All-map _ w.members (λ x only t. ap (admin_of org) (only t) ∙ none_of)
          (find_only member_key id w.members m keyed found))
        h
  admin_left org h (inr two) = any_of_positive (admin_of org) (has_member_id id) _ (
      omega (
        arith,
        two,
        one_per_id member_key id w.members keyed,
        length-select-without (admin_of org) (has_member_id id) w.members,
      ))

  -- What the guard knows of an organization.
  spared :
      (org : Uuid)
      → (is_org_admin m.role ≡ false) ⊎ (2 ≤ admins env w m.org_id)
      → (admin_of org m ≡ false) ⊎ (2 ≤ length (select (admin_of org) w.members))
  spared org (inl plain) = inl (ground (arith, plain))
  spared org (inr two) = elim (Bool-cases (m.org_id == org)) [
    | inl same ↦
        let is_it : m.org_id ≡ org = (==_iff m.org_id org).0 same in inr (rw (sym is_it) two)
    | inr other ↦ inl (ground (arith, other))
  ]

  removed-HasAdmin :
      (org : Uuid)
      → HasAdmin org w
      → Guarded env w m false
      → HasAdmin org (remove_member env id w).1
  removed-HasAdmin org h (o, e, own, why) =
      rw (remove_member-tables env w id) (elim (Bool-cases (env.fails remove_member_row)) [
        | inl f ↦ rw f h
        | inr f ↦ rw f (
            admin_left org h
              (spared org (elim why [ inl n ↦ absurd (ground (arith, n)) | inr k ↦ k ])))
      ])

  changed-HasAdmin :
      (org : Uuid) (r : Role)
      → HasAdmin org w
      → Guarded env w m (is_org_admin r)
      → HasAdmin org (update_member_role env id r w).1
  changed-HasAdmin org r h (o, e, own, why) =
      rw (update_member_role-tables env w id r) (elim (Bool-cases (env.fails update_role_row)) [
        | inl f ↦ rw f h
        | inr f ↦ rw f (after_role why)
      ])
    where
      after_role :
          (is_org_admin r ≡ true) ⊎ ((is_org_admin m.role ≡ false) ⊎ (2 ≤ admins env w m.org_id))
          → HasAdmin org (with_role env w id r)
      after_role (inl stays) =
          any-update_keeps (admin_of org) (has_member_id id) _ w.members
            (λ x a. ground (arith, a, stays)) h
      after_role (inr why) =
          any-update_without (admin_of org) (has_member_id id) _ w.members
            (admin_left org h (spared org why))

-- A change of the handlers to the members, whatever fails, leaves every organization that has an admin one.
pub handle_remove_member-HasAdmin :
    (env : TenantEnv) (w : Tenants) (org id any_org : Uuid)
    → IsKeyed member_key w.members
    → HasAdmin any_org w
    → HasAdmin any_org (handle_remove_member env org id w).1
handle_remove_member-HasAdmin env w org id any_org keyed h =
    elim (handle_remove_member-cases env w org id) [
      | inl same ↦ rw same h
      | inr (u, (m, found, of_org, guarded)) ↦
          rw u (removed-HasAdmin env w keyed id m found any_org h guarded)
    ]

pub update_role-HasAdmin :
    (env : TenantEnv) (w : Tenants) (org id any_org : Uuid) (text : Text)
    → IsKeyed member_key w.members
    → HasAdmin any_org w
    → HasAdmin any_org (update_role env org id text w).1
update_role-HasAdmin env w org id any_org text keyed h =
    elim (update_role-cases env w org id text) [
      | inl same ↦ rw same h
      | inr (r, u, (m, found, of_org, guarded)) ↦
          rw u (changed-HasAdmin env w keyed id m found any_org r h guarded)
    ]

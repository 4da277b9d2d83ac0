-- ===== src/Tenancy/Handlers/Guard.antt =====
-- What the handlers check before they change a member, by cases.
use logingestor.Prelude.{
  ℕ, ◌≤◌, ◌≡◌, ◌⊎◌, refl, ◌∙◌, ap, Bool, true, false, not, ◌&&◌, ◌||◌, some, find, select, update,
  length, leb, ◌==◌, ==_iff, if◌then◌else◌, arith, Bool-cases, Option-cases, inl, inr,
}
use logingestor.Prelude.Rows.{select-select, select-same, All-every}
use logingestor.Prelude.Result.{Result, ok, err}
use logingestor.Prelude.Exec.{continue, pure}
use logingestor.Prelude.Text.{Text}
use logingestor.Alerting.Model.{Uuid}
use logingestor.Tenancy.Model.{
  last_org_admin, cannot_modify_owner, Role, is_org_admin, Org, OrgMember, Tenants, query_member,
  query_members, query_org, coded, parse_role, BusError, WebError, internal, missing,
  cannot_modify_owner, last_org_admin, remove_member_row, update_role_row, TenantEnv,
}
use logingestor.Tenancy.Orgs.{
  has_member_id, has_org_id, query_member_by_id, members_of, query_org_by_id, remove_member,
  update_member_role,
}
use logingestor.Tenancy.Access.{is_owner}
use logingestor.Tenancy.Handlers.{
  load_org_member, admin_of, org_admin_count, guard_member_change, member_code, member_role,
  handle_remove_member, update_role,
}

harmless :
    (stays : Bool) (m : OrgMember) (n : ℕ)
    → (stays || not (is_org_admin m.role)) ≡ true
    → (stays ≡ true) ⊎ ((is_org_admin m.role ≡ false) ⊎ (2 ≤ n))
harmless true m n h = inl refl
harmless false m n h = inr (inl (ground (arith, h)))

module _ (env : TenantEnv) (w : Tenants) where
  -- Loading a member changes nothing, and gives the stored row if it is one of the organization.
  pub load_org_member-cases :
      (org id : Uuid)
      → ((e : WebError) × (load_org_member env org id w ≡ (err e, w)))
        ⊎ ((m : OrgMember) × (load_org_member env org id w ≡ (ok m, w))
            × (find (has_member_id id) w.members ≡ some m)
            × (m.org_id ≡ org))
  unfolding load_org_member query_member_by_id
  load_org_member-cases org id = elim (Bool-cases (env.fails query_member)) [
    | inl f ↦ inl (internal, rw f refl)
    | inr f ↦ elim (Option-cases (find (has_member_id id) w.members)) [
      | inl e ↦ inl (missing, rw (f, e) refl)
      | inr (m, e) ↦ elim (Bool-cases (m.org_id == org)) [
        | inl same ↦ inr (m, rw (f, e, same) refl, e, (==_iff m.org_id org).0 same)
        | inr other ↦ inl (missing, rw (f, e, other) refl)
      ]
    ]
  ]

  abbrev pub admins : Uuid → ℕ
  admins org = length (select (admin_of org) w.members)

  -- The count of the handler is that of the admins of the organization.
  counted_admins :
      (org : Uuid)
      → length (
          select
            (λ (m : OrgMember). is_org_admin m.role)
            (select (λ (m : OrgMember). m.org_id == org) w.members))
        ≡ admins org
  counted_admins org = ap length (
      select-select (λ (m : OrgMember). is_org_admin m.role) (λ (m : OrgMember). m.org_id == org)
        w.members
      ∙ select-same (λ (m : OrgMember). is_org_admin m.role && m.org_id == org) (admin_of org)
          w.members (All-every _ w.members (λ m. ground arith)))

  -- What the two changes leave.
  abbrev pub without_member : Uuid → Tenants
  without_member id = record w { members = select (λ x. not (has_member_id id x)) w.members }

  abbrev pub with_role : Uuid → Role → Tenants
  with_role id r = record w {
    members = update (has_member_id id) (λ (x : OrgMember). record x { role = r }) w.members;
  }

  pub remove_member-tables :
      (id : Uuid)
      → (remove_member env id w).1 ≡ (if env.fails remove_member_row then w else without_member id)
  unfolding remove_member
  remove_member-tables id = elim (Bool-cases (env.fails remove_member_row)) [
    | inl f ↦ rw f refl
    | inr f ↦ rw f refl
  ]

  pub update_member_role-tables :
      (id : Uuid) (r : Role)
      → (update_member_role env id r w).1
        ≡ (if env.fails update_role_row then w else with_role id r)
  unfolding update_member_role query_member_by_id
  update_member_role-tables id r = elim (Bool-cases (env.fails update_role_row)) [
    | inl f ↦ rw f refl
    | inr f ↦ elim (Bool-cases (env.fails query_member)) [
      | inl g ↦ rw (f, g) refl
      | inr g ↦ elim (Option-cases (find (has_member_id id) (with_role id r).members)) [
        | inl e ↦ rw (f, g, e) refl
        | inr (x, e) ↦ rw (f, g, e) refl
      ]
    ]
  ]

  abbrev counted : Uuid → ℕ
  counted org = length (
      select (λ (m : OrgMember). is_org_admin m.role)
        (select (λ (m : OrgMember). m.org_id == org) w.members))

  abbrev pub Guarded : OrgMember → Bool → Type 0
  Guarded m stays =
      (o : Org) × (find (has_org_id m.org_id) w.orgs ≡ some o)
      × (is_owner o m.user_id ≡ false)
      × ((stays ≡ true) ⊎ ((is_org_admin m.role ≡ false) ⊎ (2 ≤ admins m.org_id)))

  -- The guard changes nothing. It passes only for a member that is not the owner, where the
  -- member stays an admin, is none, or is not the last.
  pub guard_member_change-cases :
      (m : OrgMember) (stays : Bool)
      → ((e : WebError) × (guard_member_change env m stays w ≡ (err e, w)))
        ⊎ ((guard_member_change env m stays w ≡ (ok tt, w)) × Guarded m stays)
  unfolding guard_member_change query_org_by_id org_admin_count members_of
  guard_member_change-cases m stays = elim (Bool-cases (env.fails query_org)) [
    | inl f ↦ inl (internal, rw f refl)
    | inr f ↦ elim (Option-cases (find (has_org_id m.org_id) w.orgs)) [
      | inl e ↦ inl (missing, rw (f, e) refl)
      | inr (o, e) ↦ elim (Bool-cases (is_owner o m.user_id)) [
        | inl own ↦ inl (cannot_modify_owner, rw (f, e, own) refl)
        | inr own ↦ elim (Bool-cases (stays || not (is_org_admin m.role))) [
          | inl free ↦
              inr (rw (f, e, own, free) refl, (o, e, own, harmless stays m (admins m.org_id) free))
          | inr bound ↦ elim (Bool-cases (env.fails query_members)) [
            | inl g ↦ inl (internal, rw (f, e, own, bound, g) refl)
            | inr g ↦ elim (Bool-cases (leb (counted m.org_id) 1)) [
              | inl few ↦ inl (last_org_admin, rw (f, e, own, bound, g, few) refl)
              | inr more ↦ inr (
                rw (f, e, own, bound, g, more) refl,
                (o, e, own, inr (inr (ground (arith, more, counted_admins m.org_id)))),
              )
            ]
          ]
        ]
      ]
    ]
  ]

-- The tables after a call are those that the business call left.
pub coded-tables :
    {A : Type 0} (f : BusError → WebError) (x : Result BusError A × Tenants) → (coded f x).1 ≡ x.1
coded-tables f (ok a, w) = refl
coded-tables f (err e, w) = refl

ending : Result WebError OrgMember × Tenants → Result WebError (Unit {0}) × Tenants
ending x = continue x.0 (λ changed. pure tt) x.1

ending-tables : (x : Result WebError OrgMember × Tenants) → (ending x).1 ≡ x.1
unfolding ending
ending-tables (ok m, u) = refl
ending-tables (err e, u) = refl

module _ (env : TenantEnv) (w : Tenants) (org id : Uuid) where
  -- A change of a stored member of the organization that the guard let through.
  abbrev pub Allowed : Bool → Type 0
  Allowed stays =
      (m : OrgMember) × (find (has_member_id id) w.members ≡ some m)
      × (m.org_id ≡ org)
      × Guarded env w m stays

  -- `removeMember` changes nothing, or removes such a member.
  pub handle_remove_member-cases :
      (let u = (handle_remove_member env org id w).1 in
        (u ≡ w) ⊎ ((u ≡ (remove_member env id w).1) × Allowed false))
  unfolding handle_remove_member
  handle_remove_member-cases = elim (load_org_member-cases env w org id) [
    | inl (e, l) ↦ inl (rw l refl)
    | inr (m, l, found, same) ↦ elim (guard_member_change-cases env w m false) [
      | inl (e, g) ↦ inl (rw (l, g) refl)
      | inr (g, guarded) ↦
          inr (
            rw (l, g) (coded-tables member_code (remove_member env id w)),
            (m, found, same, guarded),
          )
    ]
  ]

  -- `updateRole` changes nothing, or gives such a member a role.
  pub update_role-cases :
      (text : Text)
      → (let u = (update_role env org id text w).1 in
          (u ≡ w)
          ⊎ ((r : Role) × (u ≡ (update_member_role env id r w).1) × Allowed (is_org_admin r)))
  unfolding update_role ending
  update_role-cases text = elim (Option-cases (member_role (parse_role text))) [
    | inl n ↦ inl (rw n refl)
    | inr (r, n) ↦ elim (load_org_member-cases env w org id) [
      | inl (e, l) ↦ inl (rw (n, l) refl)
      | inr (m, l, found, same) ↦ elim (guard_member_change-cases env w m (is_org_admin r)) [
        | inl (e, g) ↦ inl (rw (n, l, g) refl)
        | inr (g, guarded) ↦ inr (
          r,
          rw (n, l, g)
              (ending-tables (coded member_code (update_member_role env id r w))
                ∙ coded-tables member_code (update_member_role env id r w)),
          (m, found, same, guarded),
        )
      ]
    ]
  ]

-- ===== src/Tenancy/Invites/Steps.antt =====
-- The writes of accepting an invitation: the member, the grants and the mark.
use logingestor.Prelude.{
  ◌≡◌, ◌⊎◌, refl, sym, ◌∙◌, ap, Bool, true, false, not, ◌&&◌, ◌||◌, some, List, [], ◌∷◌, ◌++◌, any,
  All, All-map, update, ◌==◌, arith, Bool-cases, inl, inr,
}
use logingestor.Prelude.Clock.{Time}
use logingestor.Prelude.Result.{Result, ok, err}
use logingestor.Alerting.Model.{Uuid}
use logingestor.Tenancy.Model.{
  OrgMember, Invitation, Tenants, grant_access, mark_accepted_row, add_member_row, BusError,
  WebError, internal, TenantEnv, coded,
}
use logingestor.Tenancy.Orgs.{member_clash, add_member, insert_member, new_member}
use logingestor.Tenancy.Access.{is_grant, has_project_id, granted, grant_project_access}
use logingestor.Tenancy.Invites.{has_invitation_id, join, grant_all, mark_accepted}

-- The user has a row of the organization, whatever its role.
abbrev pub is_member_of : Uuid → Uuid → OrgMember → Bool
is_member_of org user m = m.org_id == org && m.user_id == user

-- The id that a new member gets is none of the table's.
abbrev pub FreshMember : TenantEnv → Tenants → Type 0
FreshMember env w =
    any (λ (m : OrgMember). m.member_id == env.fresh_member w.members) w.members ≡ false

any-last {ℓ} :
    {A : Type ℓ} (f : A → Bool) (xs : List A) (a : A) → f a ≡ true → any f (xs ++ a ∷ []) ≡ true
any-last f [] a h = ground (arith, h)
any-last f (x ∷ xs) a h = ground (arith, h, any-last f xs a h)

any-append {ℓ} :
    {A : Type ℓ} (f : A → Bool) (xs ys : List A) → any f xs ≡ true → any f (xs ++ ys) ≡ true
any-append f [] ys h = absurd (ground (arith, h))
any-append f (x ∷ xs) ys h = ground (arith, h, any-append f xs ys)

any-or {ℓ} :
    {A : Type ℓ} (f g : A → Bool) (xs : List A)
    → any (λ x. f x || g x) xs ≡ true
    → any f xs ≡ false
    → any g xs ≡ true
any-or f g [] h e = h
any-or f g (x ∷ xs) h e = ground (arith, h, e, any-or f g xs)

-- A grant is in the table after it was given, and the others stay.
granted_is : (user p : Uuid) (w : Tenants) → any (is_grant user p) (granted user p w).grants ≡ true
granted_is user p w = elim (Bool-cases (any (is_grant user p) w.grants)) [
  | inl t ↦ rw (t, t) refl
  | inr f ↦ rw f (any-last (is_grant user p) w.grants _ (ground arith))
]

granted_keeps :
    (user p q : Uuid) (w : Tenants)
    → any (is_grant user q) w.grants ≡ true
    → any (is_grant user q) (granted user p w).grants ≡ true
granted_keeps user p q w h = elim (Bool-cases (any (is_grant user p) w.grants)) [
  | inl t ↦ rw t h
  | inr f ↦ rw f (any-append (is_grant user q) w.grants _ h)
]

granted_else :
    (user p : Uuid) (w : Tenants)
    → ((granted user p w).invitations ≡ w.invitations)
      × ((granted user p w).members ≡ w.members)
      × ((granted user p w).projects ≡ w.projects)
granted_else user p w = elim (Bool-cases (any (is_grant user p) w.grants)) [
  | inl t ↦ rw t (refl, refl, refl)
  | inr f ↦ rw f (refl, refl, refl)
]

module _ (env : TenantEnv) (user : Uuid) where
  module _ (now : Time) (i : Invitation) (w : Tenants) where
    abbrev pub newcomer : OrgMember
    newcomer = record {
      member_id = env.fresh_member w.members;
      org_id = i.org_id;
      user_id = user;
      role = i.role;
      joined_at = now;
    }

    pub join-cases :
        (join env now user i w ≡ (err internal, w))
        ⊎ ((join env now user i w ≡ (ok tt, w)) × (member_clash newcomer w ≡ true))
        ⊎ (join env now user i w ≡ (ok tt, record w { members = w.members ++ newcomer ∷ [] }))
    unfolding add_member insert_member new_member
    join-cases = elim (Bool-cases (env.fails add_member_row)) [
      | inl f ↦ inl (rw f refl)
      | inr f ↦ elim (Bool-cases (member_clash newcomer w)) [
        | inl c ↦ inr (inl (rw (f, c) refl, c))
        | inr c ↦ inr (inr (rw (f, c) refl))
      ]
    ]

    -- Joining makes the user a member, or finds that it is one.
    pub join_done :
        FreshMember env w
        → (join env now user i w).0 ≡ ok tt
        → (let u = (join env now user i w).1 in
            (any (is_member_of i.org_id user) u.members ≡ true)
            × (u.invitations ≡ w.invitations)
            × (u.projects ≡ w.projects))
    join_done fresh h = elim join-cases [
      | inl e ↦ absurd (ground (arith, h, ap (λ x. x.0) e))
      | inr (inl (e, clash)) ↦ rw e (
        any-or (λ (m : OrgMember). m.member_id == env.fresh_member w.members)
            (is_member_of i.org_id user) w.members clash fresh,
        refl,
        refl,
      )
      | inr (inr e) ↦
          rw e (any-last (is_member_of i.org_id user) w.members newcomer (ground arith), refl, refl)
    ]

  -- Granting adds the grants of the list, and changes nothing else.
  abbrev Granted : List Uuid → Tenants → Tenants → Type 0
  Granted ps w u =
      All (λ p. any (is_grant user p) u.grants ≡ true) ps
      × ((p : Uuid) → any (is_grant user p) w.grants ≡ true → any (is_grant user p) u.grants ≡ true)
      × (u.invitations ≡ w.invitations)
      × (u.members ≡ w.members)
      × (u.projects ≡ w.projects)

  pub grant_all-blocked :
      (p : Uuid) (ps : List Uuid) (w : Tenants)
      → (env.fails grant_access || not (any (has_project_id p) w.projects)) ≡ true
      → grant_all env user (p ∷ ps) w ≡ (err internal, w)
  unfolding grant_all grant_project_access
  grant_all-blocked p ps w f = rw f refl

  pub grant_all-goes :
      (p : Uuid) (ps : List Uuid) (w : Tenants)
      → (env.fails grant_access || not (any (has_project_id p) w.projects)) ≡ false
      → grant_all env user (p ∷ ps) w ≡ grant_all env user ps (granted user p w)
  unfolding grant_all grant_project_access
  grant_all-goes p ps w f = rw f refl

  pub grant_all_done :
      (ps : List Uuid) (w : Tenants)
      → (grant_all env user ps w).0 ≡ ok tt
      → Granted ps w (grant_all env user ps w).1
  unfolding grant_all
  grant_all_done [] w h = (tt, λ p e. e, refl, refl, refl)
  grant_all_done (p ∷ ps) w h =
      elim (Bool-cases (env.fails grant_access || not (any (has_project_id p) w.projects))) [
        | inl f ↦ absurd (ground (arith, h, ap (λ x. x.0) (grant_all-blocked p ps w f)))
        | inr f ↦
            let shape = grant_all-goes p ps w f in
            let (all, mono, i', m', r') =
              grant_all_done ps (granted user p w) (ap (λ x. x.0) (sym shape) ∙ h) in
            let (i, m, r) = granted_else user p w in
            let tables = ap (λ x. x.1) shape in
            (
              (
                ap (λ (u : Tenants). any (is_grant user p) u.grants) tables
                    ∙ mono p (granted_is user p w),
                All-map _ ps
                    (λ q e. ap (λ (u : Tenants). any (is_grant user q) u.grants) tables ∙ e) all,
              ),
              λ q e.
                  ap (λ (u : Tenants). any (is_grant user q) u.grants) tables
                  ∙ mono q (granted_keeps user p q w e),
              ap (λ (u : Tenants). u.invitations) tables ∙ i' ∙ i,
              ap (λ (u : Tenants). u.members) tables ∙ m' ∙ m,
              ap (λ (u : Tenants). u.projects) tables ∙ r' ∙ r,
            )
      ]

-- The invitation is marked as accepted.
abbrev pub marked : Uuid → Time → List Invitation → List Invitation
marked id now is =
    update (has_invitation_id id) (λ (i : Invitation). record i { accepted_at = some now }) is

pub mark_accepted_done :
    (env : TenantEnv) (id : Uuid) (now : Time) (w : Tenants)
    → (mark_accepted env id now w).0 ≡ ok tt
    → (mark_accepted env id now w).1 ≡ record w { invitations = marked id now w.invitations }
unfolding mark_accepted
mark_accepted_done env id now w h = elim (Bool-cases (env.fails mark_accepted_row)) [
  | inl f ↦ absurd (ground (arith, h, f))
  | inr f ↦ rw f refl
]

pub coded_ok :
    {A : Type 0} (f : BusError → WebError) (x : Result BusError A × Tenants) (a : A)
    → (coded f x).0 ≡ ok a
    → (x.0 ≡ ok a) × ((coded f x).1 ≡ x.1)
coded_ok f (ok b, w) a h = (ground (arith, h), refl)
coded_ok f (err e, w) a h = absurd (ground (arith, h))

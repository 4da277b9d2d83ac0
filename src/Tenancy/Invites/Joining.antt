-- ===== src/Tenancy/Invites/Joining.antt =====
-- Accepting an invitation: when it succeeds, what it gives, and that it works once.
use logingestor.Prelude.{
  ◌≡◌, ◌⊎◌, refl, sym, ◌∙◌, ap, true, false, some, List, [], any, find, All, All-map, find-update,
  arith, Bool-cases, Option-cases, inl, inr,
}
use mathlib.Core.Path.{subst}
use logingestor.Prelude.Text.{Text, text_eq}
use logingestor.Prelude.Clock.{Time, before}
use logingestor.Prelude.Result.{ok, err}
use logingestor.Prelude.Exec.{◌>>◌, pure}
use logingestor.Prelude.Exec.Inverts.{bind_ok}
use logingestor.Tenancy.Model.{
  Invitation, User, Tenants, query_by_token, query_user, WebError, internal, invalid_argument,
  unauthenticated, missing, aborted, TenantEnv, calling,
}
use logingestor.Tenancy.Access.{is_grant, has_project_id, any_internal}
use logingestor.Tenancy.Access.Visible.{visible, granted_visible}
use logingestor.Tenancy.Invites.{
  has_invitation_id, has_token, is_pending, signup_required, joined, join, grant_all, mark_accepted,
  accept_as, accept, query_invitation_by_token,
}
use logingestor.Tenancy.Invites.Others.{SameOthers, join-SameOthers, grant_all-SameOthers}
use logingestor.Tenancy.Invites.Steps.{
  is_member_of, FreshMember, join_done, grant_all_done, marked, mark_accepted_done, coded_ok,
}

-- The user of the table with the address that the token names.
abbrev pub IsInvitee : TenantEnv → Tenants → Text → User → Type 0
IsInvitee env w token u =
    (email : Text) × (env.parse_token token ≡ some email)
    × (find (λ (v : User). text_eq v.email email) w.users ≡ some u)

module _ (env : TenantEnv) (now : Time) (w : Tenants) where
  -- What accepting an invitation gives a user, and that no other user gets a membership or a grant.
  abbrev pub Given : Invitation → User → Tenants → Type 0
  Given i u v =
      (any (is_member_of i.org_id u.id) v.members ≡ true)
      × All (λ p. any (is_grant u.id p) v.grants ≡ true) i.project_ids
      × (v.invitations ≡ marked i.id now w.invitations)
      × (v.projects ≡ w.projects)
      × SameOthers u.id w v

  accept_as_done :
      (i : Invitation) (u : User)
      → FreshMember env w
      → (accept_as env now i (some u) w).0 ≡ ok joined
      → Given i u (accept_as env now i (some u) w).1
  unfolding accept_as
  accept_as_done i u fresh h =
      let mark = calling any_internal (mark_accepted env i.id now) >> pure joined in
      let grants = grant_all env u.id i.project_ids in
      let (tt1, j, after_join) = bind_ok (join env now u.id i) (λ _. grants >> mark) w joined h in
      let w1 = (join env now u.id i w).1 in
      let (member, inv1, proj1) = join_done env u.id now i w fresh j in
      let (tt2, g, after_grants) =
        bind_ok grants (λ _. mark) w1 joined (ap (λ x. x.0) (sym after_join) ∙ h) in
      let w2 = (grants w1).1 in
      let (all, mono, inv2, mem2, proj2) = grant_all_done env u.id i.project_ids w1 g in
      let (m1, g1) = join-SameOthers env u.id now i w in
      let (m2, g2) = grant_all-SameOthers env u.id i.project_ids w1 in
      let (tt3, k, after_mark) =
        bind_ok (calling any_internal (mark_accepted env i.id now)) (λ _. pure joined) w2 joined
          (ap (λ x. x.0) (sym (after_join ∙ after_grants)) ∙ h) in
      let (k', same) = coded_ok any_internal (mark_accepted env i.id now w2) tt k in
      let last : (accept_as env now i (some u) w).1
          ≡ record w2 { invitations = marked i.id now w2.invitations } =
        ap (λ x. x.1) (after_join ∙ after_grants ∙ after_mark)
        ∙ same
        ∙ mark_accepted_done env i.id now w2 k' in
      rw last (
        ap (any (is_member_of i.org_id u.id)) mem2 ∙ member,
        all,
        ap (marked i.id now) (inv2 ∙ inv1),
        proj2 ∙ proj1,
        (m2 ∙ m1, g2 ∙ g1),
      )

  -- What accept reads before it writes.
  accept-cases :
      (token : Text)
      → ((e : WebError) × (accept env now token w ≡ (err e, w)))
        ⊎ ((i : Invitation) × (find (has_token token) w.invitations ≡ some i)
            × (is_pending i.accepted_at ≡ true)
            × (accept env now token w ≡ (ok signup_required, w)))
        ⊎ ((i : Invitation) × (u : User) × (find (has_token token) w.invitations ≡ some i)
            × IsInvitee env w token u
            × (is_pending i.accepted_at ≡ true)
            × (before i.expires_at now ≡ false)
            × (accept env now token w ≡ accept_as env now i (some u) w))
  unfolding accept query_invitation_by_token accept_as
  accept-cases token = elim (Bool-cases (text_eq token [])) [
    | inl t ↦ inl (invalid_argument, rw t refl)
    | inr t ↦ elim (Option-cases (env.parse_token token)) [
      | inl p ↦ inl (unauthenticated, rw (t, p) refl)
      | inr (email, p) ↦ elim (Bool-cases (env.fails query_by_token)) [
        | inl q ↦ inl (internal, rw (t, p, q) refl)
        | inr q ↦ elim (Option-cases (find (has_token token) w.invitations)) [
          | inl f ↦ inl (missing, rw (t, p, q, f) refl)
          | inr (i, f) ↦ elim (Bool-cases (is_pending i.accepted_at)) [
            | inr a ↦ inl (aborted, rw (t, p, q, f, a) refl)
            | inl a ↦ elim (Bool-cases (before i.expires_at now)) [
              | inl x ↦ inl (aborted, rw (t, p, q, f, a, x) refl)
              | inr x ↦ elim (Bool-cases (env.fails query_user)) [
                | inl y ↦ inl (internal, rw (t, p, q, f, a, x, y) refl)
                | inr y ↦ elim (Option-cases (find (λ (u : User). text_eq u.email email) w.users)) [
                  | inl z ↦ inr (inl (i, f, a, rw (t, p, q, f, a, x, y, z) refl))
                  | inr (u, z) ↦
                      inr (inr (i, u, f, (email, p, z), a, x, rw (t, p, q, f, a, x, y, z) refl))
                ]
              ]
            ]
          ]
        ]
      ]
    ]
  ]

-- If the id that a new member would get is new, an invitation that was joined by stood for the token, was
-- pending and had not expired; the user with the address that the token names is then a member of its
-- organization and has a grant for every project that it lists, and no other user's membership or grants
-- have changed.
pub accept-joined :
    (env : TenantEnv) (now : Time) (token : Text) (w : Tenants)
    → FreshMember env w
    → (accept env now token w).0 ≡ ok joined
    → (i : Invitation) × (u : User) × (find (has_token token) w.invitations ≡ some i)
      × IsInvitee env w token u
      × (is_pending i.accepted_at ≡ true)
      × (before i.expires_at now ≡ false)
      × Given env now w i u (accept env now token w).1
accept-joined env now token w fresh h = elim (accept-cases env now w token) [
  | inl (e, c) ↦ absurd (ground (arith, h, ap (λ x. x.0) c))
  | inr (inl (i, f, a, c)) ↦ absurd (ground (arith, h, ap (λ x. x.0) c))
  | inr (inr (i, u, found, invitee, pending, live, c)) ↦ (
    i,
    u,
    found,
    invitee,
    pending,
    live,
    subst (Given env now w i u) (sym (ap (λ x. x.1) c))
        (accept_as_done env now w i u fresh (ap (λ x. x.0) (sym c) ∙ h)),
  )
]

-- The invitation of a token is found again once it is marked.
marked_found :
    (token : Text) (now : Time) (i : Invitation) (is : List Invitation)
    → find (has_token token) is ≡ some i
    → find (has_token token) (marked i.id now is) ≡ some (record i { accepted_at = some now })
marked_found token now i is e =
    find-update (has_token token) (has_invitation_id i.id) _ is (λ x h. refl) ∙ rw e (ground arith)

spent :
    (i j : Invitation) (now : Time)
    → some i ≡ some j
    → i.accepted_at ≡ some now
    → is_pending j.accepted_at ≡ true
    → ⊥
spent i j now e a p = ground (arith, e, a, p)

-- If the id that a new member would get is new, a token that was joined by is refused from then on.
pub accept_once :
    (env env' : TenantEnv) (now later : Time) (token : Text) (w : Tenants)
    → FreshMember env w
    → (accept env now token w).0 ≡ ok joined
    → (let v = (accept env now token w).1 in
        (e : WebError) × (accept env' later token v ≡ (err e, v)))
accept_once env env' now later token w fresh h =
    let (i, u, found, invitee, pending, live, (member, all, invs, projects, others)) =
      accept-joined env now token w fresh h in
    let v = (accept env now token w).1 in
    let used : Invitation = record i { accepted_at = some now } in
    let stored : find (has_token token) v.invitations ≡ some used =
      ap (find (has_token token)) invs ∙ marked_found token now i w.invitations found in
    elim (accept-cases env' later v token) [
      | inl refused ↦ refused
      | inr (inl (j, f, a, c)) ↦ absurd (spent used j now (sym stored ∙ f) refl a)
      | inr (inr (j, u', f, invited, a, x, c)) ↦ absurd (spent used j now (sym stored ∙ f) refl a)
    ]

-- If the id that a new member would get is new, a project that the invitation of a token lists is visible
-- to the user with the address that the token names, once that user joined, exactly if the project exists,
-- whichever organization it is of.
pub accept-visible :
    (env : TenantEnv) (now : Time) (token : Text) (w : Tenants)
    → FreshMember env w
    → (accept env now token w).0 ≡ ok joined
    → (i : Invitation) × (u : User) × (find (has_token token) w.invitations ≡ some i)
      × IsInvitee env w token u
      × All
          (λ p. visible u.id (accept env now token w).1 p ≡ any (has_project_id p) w.projects)
          i.project_ids
accept-visible env now token w fresh h =
    let (i, u, found, invitee, pending, live, (member, all, invs, projects, others)) =
      accept-joined env now token w fresh h in
    (
      i,
      u,
      found,
      invitee,
      All-map _ i.project_ids
          (λ p g. granted_visible u.id p _ g ∙ ap (any (has_project_id p)) projects) all,
    )

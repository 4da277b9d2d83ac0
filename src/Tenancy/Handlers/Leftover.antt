-- ===== src/Tenancy/Handlers/Leftover.antt =====
-- What the removal of a member leaves behind: its grants.
use logingestor.Prelude.{
  ◌≡◌, refl, ◌∙◌, ap, Bool, true, false, ◌||◌, List, [], ◌∷◌, any, Bool-cases, inl, inr,
}
use logingestor.Prelude.Result.{ok}
use logingestor.Alerting.Model.{Uuid}
use logingestor.Tenancy.Model.{Tenants, TenantCall, remove_member_row, update_role_row, TenantEnv}
use logingestor.Tenancy.Access.{has_project_id, is_grant, Caller, authorize_project_access}
use logingestor.Tenancy.Access.Visible.{visible, granted_visible, authorize_project_access_iff}
use logingestor.Tenancy.Handlers.Guard.{
  remove_member-tables, update_member_role-tables, handle_remove_member-cases, update_role-cases,
}
use logingestor.Tenancy.Handlers.Members.{MemberRequest, removal, new_role, serve, serve_all}

abbrev SameProjects : Tenants → Tenants → Type 0
SameProjects w u = (u.projects ≡ w.projects) × (u.grants ≡ w.grants)

serve-SameProjects :
    (env : TenantEnv) (w : Tenants) (q : MemberRequest) → SameProjects w (serve env q w)
unfolding serve
serve-SameProjects env w (removal org id) = elim (handle_remove_member-cases env w org id) [
  | inl same ↦ rw same (refl, refl)
  | inr (u, allowed) ↦
      rw (u, remove_member-tables env w id)
        (elim (Bool-cases (env.fails remove_member_row)) [
          | inl b ↦ rw b (refl, refl)
          | inr b ↦ rw b (refl, refl)
        ])
]
serve-SameProjects env w (new_role org id text) = elim (update_role-cases env w org id text) [
  | inl same ↦ rw same (refl, refl)
  | inr (r, u, allowed) ↦
      rw (u, update_member_role-tables env w id r)
        (elim (Bool-cases (env.fails update_role_row)) [
          | inl b ↦ rw b (refl, refl)
          | inr b ↦ rw b (refl, refl)
        ])
]

serve_all-SameProjects :
    (env : TenantEnv) (w : Tenants) (qs : List MemberRequest) → SameProjects w (serve_all env qs w)
unfolding serve_all
serve_all-SameProjects env w [] = (refl, refl)
serve_all-SameProjects env w (q ∷ qs) =
    let (p, g) = serve_all-SameProjects env (serve env q w) qs in
    let (p', g') = serve-SameProjects env w q in (p ∙ p', g ∙ g')

-- Whoever had a grant for a project passes its authorization after any sequence of requests that change
-- members, its own removal included, where the statements succeed.
pub removed_passes :
    (env : TenantEnv) (w : Tenants) (qs : List MemberRequest) (c : Caller) (project : Uuid)
    → ((call : TenantCall) → env.fails call ≡ false)
    → any (has_project_id project) w.projects ≡ true
    → any (is_grant c.user_id project) w.grants ≡ true
    → (let u = serve_all env qs w in authorize_project_access env c project u ≡ (ok tt, u))
removed_passes env w qs c project works exists granted =
    let u = serve_all env qs w in
    let (p, g) = serve_all-SameProjects env w qs in
    let seen : visible c.user_id u project ≡ true =
      granted_visible c.user_id project u (ap (any (is_grant c.user_id project)) g ∙ granted)
      ∙ ap (any (has_project_id project)) p
      ∙ exists in
    (authorize_project_access_iff env c project u works).1 (or_true _ _ seen)
  where
    or_true : (a b : Bool) → b ≡ true → (a || b) ≡ true
    or_true true b h = refl
    or_true false b h = h

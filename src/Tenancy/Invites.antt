-- ===== src/Tenancy/Invites.antt =====
-- business/domain/invitationbus with stores/invitationdb/invitationdb.go, and the handlers of
-- app/domain/invitationapp/invitationapp.go. The mail goes out after the last write; of it, only whether it fails is modelled.
pub mod Steps
pub mod Others
pub mod Joining
use logingestor.Prelude.{
  ℕ, ◌+◌, ◌*◌, Bool, true, false, not, ◌&&◌, ◌||◌, Option, none, some, List, [], ◌∷◌, ◌++◌, any,
  find, select, update, ◌==◌, if◌then◌else◌,
}
use logingestor.Prelude.Text.{Text, text_eq}
use logingestor.Prelude.Clock.{Time, hour, before}
use logingestor.Prelude.Result.{Result, ok, err}
use logingestor.Prelude.Exec.{Exec, ◌>>=◌, ◌>>◌, pure, raise_error, require, or_error}
use logingestor.Alerting.Model.{Uuid}
use logingestor.Tenancy.Model.{
  Role, parse_role, is_super_admin, OrgMember, NewOrgMember, Invitation, User, Tenants,
  create_invitation_row, query_invitation, query_by_token, delete_invitation, mark_accepted_row,
  query_user, BusError, statement, not_found, member_exists, already_used, WebError, internal,
  invalid_argument, unauthenticated, missing, aborted, TenantEnv, TenantExec, WebExec, calling,
}
use logingestor.Tenancy.Orgs.{asks, changes, made, inserts, add_member, query_org_by_id}
use logingestor.Tenancy.Access.{grant_project_access, not_found_or_internal, any_internal}

pub record NewInvitation : Type 0 where
  pub org_id : Uuid
  pub email : Text
  pub role : Role
  pub token : Text
  pub project_ids : List Uuid
  pub expires_at : Time

abbrev pub has_invitation_id : Uuid → Invitation → Bool
has_invitation_id id i = i.id == id

abbrev pub has_token : Text → Invitation → Bool
has_token token i = text_eq i.token token

-- `Create`; the token is unique.
unfoldable pub new_invitation : TenantEnv → Uuid → Time → NewInvitation → Tenants → Invitation
new_invitation env actor now n w = record {
  id = env.fresh_invitation w.invitations;
  org_id = n.org_id;
  email = n.email;
  role = n.role;
  token = n.token;
  invited_by = actor;
  project_ids = n.project_ids;
  accepted_at = none;
  expires_at = n.expires_at;
  created_at = now;
}

unfoldable pub create_invitation : TenantEnv → Uuid → Time → NewInvitation → TenantExec Invitation
create_invitation env actor now n = do
  i ← made (new_invitation env actor now n)
  inserts env create_invitation_row (statement create_invitation_row)
      (λ w. any (λ (j : Invitation). has_invitation_id i.id j || has_token i.token j) w.invitations)
      (λ w. record w { invitations = w.invitations ++ i ∷ [] })
  pure i

unfoldable pub query_invitation_by_id : TenantEnv → Uuid → TenantExec Invitation
query_invitation_by_id env id = do
  found ← asks env query_invitation (λ w. find (has_invitation_id id) w.invitations)
  or_error not_found found

unfoldable pub query_invitation_by_token : TenantEnv → Text → TenantExec Invitation
query_invitation_by_token env token = do
  found ← asks env query_by_token (λ w. find (has_token token) w.invitations)
  or_error not_found found

abbrev pub is_pending : Option Time → Bool
is_pending none = true
is_pending (some t) = false

abbrev pending_only : Invitation → TenantExec (Unit {0})
pending_only i w = if is_pending i.accepted_at then (ok tt, w) else (err already_used, w)

-- `Revoke`
unfoldable pub revoke : TenantEnv → Uuid → TenantExec (Unit {0})
revoke env id = do
  i ← query_invitation_by_id env id
  pending_only i
  changes env delete_invitation
      λ w. record w { invitations = select (λ j. not (has_invitation_id id j)) w.invitations }

-- `MarkAccepted`
unfoldable pub mark_accepted : TenantEnv → Uuid → Time → TenantExec (Unit {0})
mark_accepted env id at = changes env mark_accepted_row λ w. record w {
  invitations =
      update (has_invitation_id id) (λ (i : Invitation). record i { accepted_at = some at })
        w.invitations;
}

abbrev invite_life : ℕ
invite_life = 72 * hour

-- `create`, after the body was decoded: the role is parsed and is not SUPER ADMIN.
abbrev invited_role : Option Role → Option Role
invited_role none = none
invited_role (some r) = if is_super_admin r then none else some r

unfoldable pub handle_create_invitation :
    TenantEnv → Uuid → Uuid → Time → Text → Text → List Uuid → WebExec Invitation
handle_create_invitation env org caller now email role projects = do
  r ← or_error invalid_argument (invited_role (parse_role role))
  token ← calling any_internal (made (λ w. env.sign_token w.invitations))
  i ← calling any_internal (
      create_invitation env caller now (record {
        org_id = org;
        email = email;
        role = r;
        token = token;
        project_ids = projects;
        expires_at = now + invite_life;
      }))
  o ← calling any_internal (query_org_by_id env org)
  found ←
      calling any_internal (asks env query_user λ w. find (λ (u : User). u.id == caller) w.users)
  inviter ← or_error internal found
  require (not (env.mail_fails email)) internal
  pure i

-- The answer of `accept`.
pub data Accepted : Type 0 where
  signup_required joined : Accepted

abbrev fresh_only : Time → Invitation → WebExec (Unit {0})
fresh_only now i w =
    if not (is_pending i.accepted_at)
    then (err aborted, w)
    else if before i.expires_at now
    then (err aborted, w)
    else (ok tt, w)

-- A user that is a member already keeps the role it has.
abbrev tolerated : Result BusError OrgMember × Tenants → Result WebError (Unit {0}) × Tenants
tolerated (ok m, w) = (ok tt, w)
tolerated (err e, w) = (elim e [ member_exists ↦ ok tt | _ ↦ err internal ], w)

abbrev pub join : TenantEnv → Time → Uuid → Invitation → WebExec (Unit {0})
join env now user i w =
    tolerated (add_member env now (record { org_id = i.org_id; user_id = user; role = i.role }) w)

unfoldable pub grant_all : TenantEnv → Uuid → List Uuid → WebExec (Unit {0})
grant_all env user [] = pure tt
grant_all env user (p ∷ ps) = do
  calling any_internal (grant_project_access env user p)
  grant_all env user ps

unfoldable pub accept_as : TenantEnv → Time → Invitation → Option User → WebExec Accepted
accept_as env now i none = pure signup_required
accept_as env now i (some u) = do
  join env now u.id i
  grant_all env u.id i.project_ids
  calling any_internal (mark_accepted env i.id now)
  pure joined

-- `accept`
unfoldable pub accept : TenantEnv → Time → Text → WebExec Accepted
accept env now token = do
  require (not (text_eq token [])) invalid_argument
  email ← or_error unauthenticated (env.parse_token token)
  i ← calling not_found_or_internal (query_invitation_by_token env token)
  fresh_only now i
  user ←
      calling any_internal
        (asks env query_user λ w. find (λ (u : User). text_eq u.email email) w.users)
  accept_as env now i user

abbrev revoke_code : BusError → WebError
revoke_code not_found = missing
revoke_code already_used = aborted
revoke_code _ = internal

-- `revoke` of the handler: the invitation is one of the organization of the path.
unfoldable pub handle_revoke : TenantEnv → Uuid → Uuid → WebExec (Unit {0})
handle_revoke env org id = do
  i ← calling not_found_or_internal (query_invitation_by_id env id)
  require (i.org_id == org) missing
  calling revoke_code (revoke env id)

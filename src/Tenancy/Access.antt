-- ===== src/Tenancy/Access.antt =====
-- Access to projects: `GrantProjectAccess`, `HasAccess`, `OrgEnabled` and `QueryAccessible` of
-- business/domain/projectbus with stores/projectdb/projectdb.go, and app/sdk/mid/authorize.go and
-- authorizeproject.go.
pub mod Visible
use logingestor.Prelude.{
  ℕ, Bool, true, false, not, ◌&&◌, ◌||◌, Option, none, some, List, [], ◌∷◌, ◌++◌, any, find, select,
  ◌==◌, if◌then◌else◌,
}
use logingestor.Prelude.Text.{Text}
use logingestor.Prelude.Result.{ok, err}
use logingestor.Prelude.Exec.{Exec, ◌>>=◌, ◌>>◌, pure, raise_error, require, or_error}
use logingestor.Alerting.Model.{Uuid}
use logingestor.Tenancy.Model.{
  Role, org_admin, is_org_admin, is_super_admin, is_manager, Org, OrgMember, OrgProject, Grant,
  Tenants, grant_access, has_access_row, query_project, query_org, BusError, statement, not_found,
  WebError, internal, permission_denied, missing, TenantEnv, TenantExec, WebExec, calling,
}
use logingestor.Tenancy.Orgs.{asks, changes, has_org_id, query_org_by_id, orgs_of_user}

abbrev pub is_grant : Uuid → Uuid → Grant → Bool
is_grant user project g = g.user_id == user && g.project_id == project

abbrev pub has_project_id : Uuid → OrgProject → Bool
has_project_id id p = p.id == id

-- `ON CONFLICT DO NOTHING`; a project that does not exist violates the foreign key.
abbrev pub granted : Uuid → Uuid → Tenants → Tenants
granted user project w =
    if any (is_grant user project) w.grants
    then w
    else record w { grants = w.grants ++ record { user_id = user; project_id = project } ∷ [] }

unfoldable pub grant_project_access : TenantEnv → Uuid → Uuid → TenantExec (Unit {0})
grant_project_access env user project w =
    if env.fails grant_access || not (any (has_project_id project) w.projects)
    then (err (statement grant_access), w)
    else (ok tt, granted user project w)

abbrev pub administers : Uuid → Uuid → OrgMember → Bool
administers org user m =
    m.org_id == org && m.user_id == user && (is_org_admin m.role || is_super_admin m.role)

-- The WHERE clause that `HasAccess` and `QueryAccessible` share.
unfoldable pub can_see : Uuid → Tenants → OrgProject → Bool
can_see user w p = any (administers p.org_id user) w.members || any (is_grant user p.id) w.grants

unfoldable pub has_access : TenantEnv → Uuid → Uuid → TenantExec Bool
has_access env user project =
    asks env has_access_row λ w. any (λ p. has_project_id project p && can_see user w p) w.projects

unfoldable pub query_accessible : TenantEnv → Uuid → Uuid → TenantExec (List OrgProject)
query_accessible env org user =
    asks env query_project λ w. select (λ p. p.org_id == org && can_see user w p) w.projects

unfoldable pub query_project_by_id : TenantEnv → Uuid → TenantExec OrgProject
query_project_by_id env id = do
  found ← asks env query_project (λ w. find (has_project_id id) w.projects)
  or_error not_found found

-- The claims of a caller: the user, and the roles of the session.
pub record Caller : Type 0 where
  pub user_id : Uuid
  pub roles : List Role

abbrev pub not_found_or_internal : BusError → WebError
not_found_or_internal not_found = missing
not_found_or_internal _ = internal

abbrev pub any_internal : BusError → WebError
any_internal e = internal

abbrev pub role_at : Uuid → List (Uuid × Role) → Option Role
role_at org [] = none
role_at org ((o, r) ∷ rest) = if o == org then some r else role_at org rest

-- `callerOrgRole`
unfoldable pub caller_org_role : TenantEnv → Caller → Uuid → WebExec (Option Role)
caller_org_role env c project = do
  p ← calling not_found_or_internal (query_project_by_id env project)
  roles ← calling any_internal (orgs_of_user env c.user_id)
  pure (role_at p.org_id roles)

abbrev pub admin_role : Option Role → Bool
admin_role none = false
admin_role (some r) = is_org_admin r

abbrev explicit_access : TenantEnv → Caller → Uuid → WebExec (Unit {0})
explicit_access env c project = do
  allowed ← calling any_internal (has_access env c.user_id project)
  require allowed permission_denied

abbrev admin_or : WebExec (Unit {0}) → Option Role → WebExec (Unit {0})
admin_or other r w = if admin_role r then (ok tt, w) else other w

-- `AuthorizeProjectAccess`, which is `requireProjectAccess`
unfoldable pub authorize_project_access : TenantEnv → Caller → Uuid → WebExec (Unit {0})
authorize_project_access env c project w =
    if any is_super_admin c.roles
    then (ok tt, w)
    else (do r ← caller_org_role env c project; admin_or (explicit_access env c project) r) w

abbrev managers_only : TenantEnv → Caller → Uuid → WebExec (Unit {0})
managers_only env c project w =
    if any is_manager c.roles
    then authorize_project_access env c project w
    else (err permission_denied, w)

-- `AuthorizeProjectManage`
unfoldable pub authorize_project_manage : TenantEnv → Caller → Uuid → WebExec (Unit {0})
authorize_project_manage env c project w =
    if any is_super_admin c.roles
    then (ok tt, w)
    else (do r ← caller_org_role env c project; admin_or (managers_only env c project) r) w

-- `AuthorizeOrgMember`, `AuthorizeOrgAdmin` and `AuthorizeOrgOwner` of an organization.
abbrev is_member : Option Role → Bool
is_member none = false
is_member (some r) = true

unfoldable pub authorize_org_member : TenantEnv → Caller → Uuid → WebExec (Unit {0})
authorize_org_member env c org w =
    if any is_super_admin c.roles
    then (ok tt, w)
    else (do
      roles ← calling any_internal (orgs_of_user env c.user_id)
      require (is_member (role_at org roles)) permission_denied)
        w

unfoldable pub authorize_org_admin : TenantEnv → Caller → Uuid → WebExec (Unit {0})
authorize_org_admin env c org w =
    if any is_super_admin c.roles
    then (ok tt, w)
    else (do
      roles ← calling any_internal (orgs_of_user env c.user_id)
      require (admin_role (role_at org roles)) permission_denied)
        w

abbrev pub is_owner : Org → Uuid → Bool
is_owner o user = elim o.created_by [ none ↦ false | some u ↦ u == user ]

unfoldable pub authorize_org_owner : TenantEnv → Caller → Uuid → WebExec (Unit {0})
authorize_org_owner env c org w =
    if any is_super_admin c.roles
    then (ok tt, w)
    else (do
      o ← calling not_found_or_internal (query_org_by_id env org)
      require (is_owner o c.user_id) permission_denied)
        w

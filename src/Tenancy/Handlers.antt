-- ===== src/Tenancy/Handlers.antt =====
-- The handlers of app/domain/orgapp/orgapp.go that change an organization or its members, and `update` of
-- app/domain/projectapp/projectapp.go. The parameters of a path and the body are parsed before.
pub mod Guard
pub mod LastAdmin
pub mod Members
pub mod Leftover
use logingestor.Prelude.{
  ℕ, Bool, true, false, not, ◌&&◌, ◌||◌, Option, none, some, List, [], ◌∷◌, any, find, select,
  update, length, leb, ◌==◌, if◌then◌else◌,
}
use logingestor.Prelude.Int.{ℤ, pos, negsuc, ltb_ℤ, leb_ℤ}
use logingestor.Prelude.Text.{Text, codes, text_eq}
use logingestor.Prelude.Clock.{Time}
use logingestor.Prelude.Result.{ok, err}
use logingestor.Prelude.Exec.{Exec, ◌>>=◌, ◌>>◌, pure, raise_error, require, or_error}
use logingestor.Alerting.Model.{Uuid}
use logingestor.Tenancy.Model.{
  Role, parse_role, is_org_admin, is_super_admin, Org, NewOrg, OrgMember, OrgSubscription,
  CatalogPlan, OrgProject, Tenants, query_subscription, query_plans, update_project_row, BusError,
  statement, not_found, unique_slug, org_limit_reached, member_not_found, WebError, internal,
  invalid_argument, missing, slug_taken, too_many_orgs, cannot_modify_owner, last_org_admin,
  confirmation_required, other_admins_exist, retention_exceeds_plan, TenantEnv, TenantExec, WebExec,
  calling,
}
use logingestor.Tenancy.Orgs.{
  asks, changes, create_org, query_org_by_id, delete_org, remove_member, query_member_by_id,
  update_member_role, members_of,
}
use logingestor.Tenancy.Access.{
  has_project_id, query_project_by_id, not_found_or_internal, any_internal, is_owner,
}

abbrev create_code : BusError → WebError
create_code unique_slug = slug_taken
create_code org_limit_reached = too_many_orgs
create_code _ = internal

-- `create`
unfoldable pub handle_create_org : TenantEnv → Uuid → Time → NewOrg → WebExec Org
handle_create_org env caller now n = calling create_code (create_org env caller now n)

abbrev pub member_code : BusError → WebError
member_code member_not_found = missing
member_code _ = internal

-- `loadOrgMember`: the member belongs to the organization of the path.
unfoldable pub load_org_member : TenantEnv → Uuid → Uuid → WebExec OrgMember
load_org_member env org member = do
  m ← calling member_code (query_member_by_id env member)
  require (m.org_id == org) missing
  pure m

-- `orgAdminCount`
abbrev pub admin_of : Uuid → OrgMember → Bool
admin_of org m = m.org_id == org && is_org_admin m.role

unfoldable pub org_admin_count : TenantEnv → Uuid → WebExec ℕ
org_admin_count env org = do
  ms ← calling any_internal (members_of env org)
  pure (length (select (λ (m : OrgMember). is_org_admin m.role) ms))

abbrev leaves_one : TenantEnv → Uuid → WebExec (Unit {0})
leaves_one env org = do n ← org_admin_count env org; require (not (leb n 1)) last_org_admin

-- `guardMemberChange`
unfoldable pub guard_member_change : TenantEnv → OrgMember → Bool → WebExec (Unit {0})
guard_member_change env m stays_admin = do
  o ← calling not_found_or_internal (query_org_by_id env m.org_id)
  require (not (is_owner o m.user_id)) cannot_modify_owner
  λ w. if stays_admin || not (is_org_admin m.role) then (ok tt, w) else leaves_one env m.org_id w

-- `toBusUpdateOrgRole`
abbrev pub member_role : Option Role → Option Role
member_role none = none
member_role (some r) = if is_super_admin r then none else some r

-- `updateRole`
unfoldable pub update_role : TenantEnv → Uuid → Uuid → Text → WebExec (Unit {0})
update_role env org member text = do
  r ← or_error invalid_argument (member_role (parse_role text))
  m ← load_org_member env org member
  guard_member_change env m (is_org_admin r)
  changed ← calling member_code (update_member_role env member r)
  pure tt

-- `removeMember`
unfoldable pub handle_remove_member : TenantEnv → Uuid → Uuid → WebExec (Unit {0})
handle_remove_member env org member = do
  m ← load_org_member env org member
  guard_member_change env m false
  calling member_code (remove_member env member)

-- `delete`: the caller repeats the slug, and confirms where there are other admins.
unfoldable pub handle_delete_org : TenantEnv → Uuid → Text → Bool → WebExec (Unit {0})
handle_delete_org env org confirm force = do
  o ← calling not_found_or_internal (query_org_by_id env org)
  require (text_eq confirm o.slug) confirmation_required
  n ← org_admin_count env org
  require (leb n 1 || force) other_admins_exist
  calling any_internal (delete_org env o)

-- `planRetentionLimit`: below zero where there is no limit.
abbrev unlimited : ℤ
unlimited = negsuc 0

abbrev days_of : Option CatalogPlan → ℤ
days_of none = unlimited
days_of (some p) = p.log_retention_days

abbrev limit_of : TenantEnv → Option OrgSubscription → WebExec ℤ
limit_of env none = pure unlimited
limit_of env (some s) = do
  found ←
      calling any_internal
        (asks env query_plans λ w. find (λ (p : CatalogPlan). p.plan_id == s.plan_id) w.plans)
  pure (days_of found)

unfoldable pub plan_retention_limit : TenantEnv → Uuid → WebExec ℤ
plan_retention_limit env org = do
  s ← calling any_internal (
      asks env query_subscription
        λ w. find (λ (s : OrgSubscription). s.org_id == org) w.subscriptions)
  limit_of env s

-- What a request asks of the retention: to leave it, to clear it, or a number of days.
pub data RetentionChange : Type 0 where
  leave clear : RetentionChange
  days : ℤ → RetentionChange

pub record UpdateProject : Type 0 where
  pub name : Option Text
  pub color : Option Text
  pub retention : RetentionChange

abbrev exceeds : ℤ → ℤ → Bool
exceeds limit n = leb_ℤ (pos 0) limit && ltb_ℤ limit n

unfoldable pub check_retention : TenantEnv → Uuid → RetentionChange → WebExec (Unit {0})
check_retention env org leave = pure tt
check_retention env org clear = pure tt
check_retention env org (days n) = do
  limit ← plan_retention_limit env org
  require (not (exceeds limit n)) retention_exceeds_plan

abbrev chosen : {A : Type 0} → Option A → A → A
chosen none a = a
chosen (some b) a = b

abbrev new_retention : RetentionChange → Option ℤ → Option ℤ
new_retention leave old = old
new_retention clear old = none
new_retention (days n) old = some n

-- `toBusUpdateProject` refuses a number below zero.
abbrev accepted_days : RetentionChange → Bool
accepted_days leave = true
accepted_days clear = true
accepted_days (days n) = leb_ℤ (pos 0) n

unfoldable pub changed_project : Time → UpdateProject → OrgProject → OrgProject
changed_project now u p = record p {
  name = chosen u.name p.name;
  color = chosen u.color p.color;
  retention_days = new_retention u.retention p.retention_days;
  date_updated = now;
}

unfoldable pub save_project : TenantEnv → OrgProject → TenantExec (Unit {0})
save_project env p = changes env update_project_row λ w. record w {
  projects =
      update (has_project_id p.id)
        (λ (q : OrgProject). record q {
          name = p.name;
          color = p.color;
          retention_days = p.retention_days;
          date_updated = p.date_updated;
        })
        w.projects;
}

unfoldable pub handle_update_project :
    TenantEnv → Time → Uuid → Uuid → UpdateProject → WebExec OrgProject
handle_update_project env now org project u = do
  require (accepted_days u.retention) invalid_argument
  p ← calling not_found_or_internal (query_project_by_id env project)
  require (p.org_id == org) missing
  check_retention env p.org_id u.retention
  calling any_internal (save_project env (changed_project now u p))
  pure (changed_project now u p)

-- ===== src/Tenancy/Model.antt =====
-- Organizations, members, projects, grants and invitations: the records of business/domain/orgbus,
-- projectbus and invitationbus, their tables, and what the code takes from outside.
use logingestor.Prelude.{ℕ, Bool, true, false, Option, none, some, List, if◌then◌else◌}
use logingestor.Prelude.Int.{ℤ}
use logingestor.Prelude.Text.{Text, codes, text_eq}
use logingestor.Prelude.Clock.{Time}
use logingestor.Prelude.Result.{Result, ok, err}
use logingestor.Prelude.Exec.{Exec}
use logingestor.Alerting.Model.{Uuid}

pub data Role : Type 0 where
  super_admin org_admin prj_manager viewer : Role

-- `Parse` of business/types/role
unfoldable pub parse_role : Text → Option Role
parse_role s =
    if text_eq s (codes "SUPER ADMIN")
    then some super_admin
    else if text_eq s (codes "ORG ADMIN")
    then some org_admin
    else if text_eq s (codes "PROJECT MANAGER")
    then some prj_manager
    else if text_eq s (codes "VIEWER")
    then some viewer
    else none

abbrev pub is_org_admin : Role → Bool
is_org_admin org_admin = true
is_org_admin _ = false

abbrev pub is_super_admin : Role → Bool
is_super_admin super_admin = true
is_super_admin _ = false

abbrev pub is_manager : Role → Bool
is_manager prj_manager = true
is_manager _ = false

abbrev pub max_orgs_per_user : ℕ
max_orgs_per_user = 3

pub record Org : Type 0 where
  pub id : Uuid
  pub name : Text
  pub slug : Text
  pub enabled : Bool
  pub created_by : Option Uuid
  pub date_created : Time
  pub date_updated : Time

pub record NewOrg : Type 0 where
  pub name : Text
  pub slug : Text

pub record UpdateOrg : Type 0 where
  pub name : Option Text
  pub slug : Option Text
  pub enabled : Option Bool

pub record OrgMember : Type 0 where
  pub member_id : Uuid
  pub org_id : Uuid
  pub user_id : Uuid
  pub role : Role
  pub joined_at : Time

pub record NewOrgMember : Type 0 where
  pub org_id : Uuid
  pub user_id : Uuid
  pub role : Role

-- The columns of a subscription that are set when an organization is made.
pub record OrgSubscription : Type 0 where
  pub subscription_id : Uuid
  pub org_id : Uuid
  pub plan_id : Uuid

-- A plan of the catalog, with the limit that a project's retention is held to.
pub record CatalogPlan : Type 0 where
  pub plan_id : Uuid
  pub slug : Text
  pub log_retention_days : ℤ

pub record OrgProject : Type 0 where
  pub id : Uuid
  pub org_id : Uuid
  pub name : Text
  pub color : Text
  pub retention_days : Option ℤ
  pub date_updated : Time

-- A row of user_project_access.
pub record Grant : Type 0 where
  pub user_id : Uuid
  pub project_id : Uuid

pub record Invitation : Type 0 where
  pub id : Uuid
  pub org_id : Uuid
  pub email : Text
  pub role : Role
  pub token : Text
  pub invited_by : Uuid
  pub project_ids : List Uuid
  pub accepted_at : Option Time
  pub expires_at : Time
  pub created_at : Time

pub record User : Type 0 where
  pub id : Uuid
  pub email : Text

pub record Tenants : Type 0 where
  pub orgs : List Org
  pub members : List OrgMember
  pub subscriptions : List OrgSubscription
  pub plans : List CatalogPlan
  pub projects : List OrgProject
  pub grants : List Grant
  pub invitations : List Invitation
  pub users : List User

pub data TenantCall : Type 0 where
  create_org_row update_org_row delete_org_row update_enabled query_org count_owned_rows :
      TenantCall
  add_member_row remove_member_row update_role_row query_member query_members query_user_orgs :
      TenantCall
  query_plan query_plans create_subscription_row query_subscription : TenantCall
  update_project_row query_project grant_access has_access_row : TenantCall
  create_invitation_row query_invitation query_by_token delete_invitation mark_accepted_row :
      TenantCall
  query_user : TenantCall

-- The errors of the business packages.
pub data BusError : Type 0 where
  statement : TenantCall → BusError
  not_found unique_slug org_limit_reached member_exists member_not_found already_used : BusError

-- The codes that a handler answers with.
pub data WebError : Type 0 where
  internal invalid_argument unauthenticated permission_denied missing aborted : WebError
  slug_taken too_many_orgs cannot_modify_owner last_org_admin confirmation_required : WebError
  other_admins_exist retention_exceeds_plan : WebError

-- Outside the repository: the statements that fail, `uuid.New()` for each table, the check of an
-- invitation's token, which gives the address that it names, and whether a mail fails to be sent.
pub record TenantEnv : Type 0 where
  pub fails : TenantCall → Bool
  pub fresh_org : List Org → Uuid
  pub fresh_member : List OrgMember → Uuid
  pub fresh_subscription : List OrgSubscription → Uuid
  pub fresh_invitation : List Invitation → Uuid
  pub sign_token : List Invitation → Text
  pub parse_token : Text → Option Text
  pub mail_fails : Text → Bool

abbrev pub TenantExec : Type 0 → Type 0
TenantExec A = Exec Tenants BusError A

abbrev pub WebExec : Type 0 → Type 0
WebExec A = Exec Tenants WebError A

-- A business call whose error a handler answers with a code.
abbrev pub coded :
    {A : Type 0} → (BusError → WebError) → Result BusError A × Tenants → Result WebError A × Tenants
coded f (ok a, w) = (ok a, w)
coded f (err e, w) = (err (f e), w)

abbrev pub calling : {A : Type 0} → (BusError → WebError) → TenantExec A → WebExec A
calling f m w = coded f (m w)

-- ===== src/Examples/Members.antt =====
-- Instances of the theorems on organizations, members, projects and invitations.
use logingestor.Prelude.{
  ◌||◌, any, arith, ◌↔◌, All, ◌==◌, not, find, select, ℕ, ◌+◌, ◌≡◌, refl, true, false, none, some,
  List, [], ◌∷◌, length,
}
use logingestor.Prelude.Result.{err, ok}
use logingestor.Prelude.Text.{Text, codes}
use logingestor.Tenancy.Model.{
  OrgMember, User, Invitation, WebError, Org, TenantEnv, Tenants, viewer, org_admin,
}
use logingestor.Prelude.Clock.{before}
use logingestor.Prelude.Rows.{IsKeyed}
use logingestor.Tenancy.Access.{
  Caller, authorize_project_access, grant_project_access, has_project_id,
}
use logingestor.Tenancy.Access.Visible.{authorize_project_access_iff, visible}
use logingestor.Tenancy.Handlers.LastAdmin.{HasAdmin, member_key}
use logingestor.Tenancy.Handlers.Leftover.{removed_passes}
use logingestor.Tenancy.Handlers.Members.{
  MemberRequest, new_role, owner_row, removal, serve, serve_all, serve_all-HasAdmin,
  serve_all-owner, serve_isolated,
}
use logingestor.Tenancy.Invites.{
  accept, accept_as, grant_all, has_token, is_pending, joined, mark_accepted,
  query_invitation_by_token,
}
use logingestor.Tenancy.Invites.Joining.{
  IsInvitee, Given, accept-joined, accept_once, accept-visible,
}
use logingestor.Tenancy.Model.{is_super_admin}
use logingestor.Tenancy.Orgs.{add_member, create_org, insert_member, new_member}
use logingestor.Tenancy.Orgs.Owned.{IsCapped, create_org-IsCapped}

abbrev tenant_env : TenantEnv
tenant_env = record {
  fails = λ call. false;
  fresh_org = λ os. 10 + length os;
  fresh_member = λ ms. 100 + length ms;
  fresh_subscription = λ ss. 200 + length ss;
  fresh_invitation = λ is. 300 + length is;
  sign_token = λ is. codes "token";
  parse_token = λ token. some (codes "eve@b.example");
  mail_fails = λ email. false;
}

-- Organization 1 of user 5 with project 11, and organization 2 of user 7 with project 22. User 6 is a
-- viewer of organization 1 with a grant; user 8 is invited to it, for project 22.
abbrev tenants : Tenants
tenants = record {
  orgs =
      record {
        id = 1;
        name = codes "A";
        slug = codes "a";
        enabled = true;
        created_by = some 5;
        date_created = 0;
        date_updated = 0;
      }
      ∷ record {
        id = 2;
        name = codes "B";
        slug = codes "b";
        enabled = true;
        created_by = some 7;
        date_created = 0;
        date_updated = 0;
      }
      ∷ [];
  members =
      record { member_id = 1; org_id = 1; user_id = 5; role = org_admin; joined_at = 0 }
      ∷ record { member_id = 2; org_id = 1; user_id = 6; role = viewer; joined_at = 0 }
      ∷ record { member_id = 3; org_id = 2; user_id = 7; role = org_admin; joined_at = 0 }
      ∷ [];
  subscriptions = [];
  plans = [];
  projects =
      record {
        id = 11;
        org_id = 1;
        name = codes "web";
        color = codes "#fff";
        retention_days = none;
        date_updated = 0;
      }
      ∷ record {
        id = 22;
        org_id = 2;
        name = codes "pay";
        color = codes "#fff";
        retention_days = none;
        date_updated = 0;
      }
      ∷ [];
  grants = record { user_id = 6; project_id = 11 } ∷ [];
  invitations =
      record {
        id = 31;
        org_id = 1;
        email = codes "eve@b.example";
        role = viewer;
        token = codes "token";
        invited_by = 5;
        project_ids = 22 ∷ [];
        accepted_at = none;
        expires_at = 500;
        created_at = 1;
      }
      ∷ [];
  users = record { id = 8; email = codes "eve@b.example" } ∷ [];
}

abbrev tenants_key : IsKeyed member_key tenants.members
tenants_key = ((refl, (refl, tt)), ((refl, tt), (tt, tt)))

-- The viewer is removed, and the owner is asked to be a viewer.
abbrev changes_asked : List MemberRequest
changes_asked = removal 1 2 ∷ new_role 1 1 (codes "VIEWER") ∷ []

abbrev leaver : Caller
leaver = record { user_id = 6; roles = viewer ∷ [] }

serve_all-HasAdmin_example : HasAdmin 1 (serve_all tenant_env changes_asked tenants)
serve_all-HasAdmin_example = serve_all-HasAdmin tenant_env tenants 1 changes_asked tenants_key refl

abbrev first_org : Org
first_org = record {
  id = 1;
  name = codes "A";
  slug = codes "a";
  enabled = true;
  created_by = some 5;
  date_created = 0;
  date_updated = 0;
}

serve_all-owner_example :
    select (owner_row first_org 5) (serve_all tenant_env changes_asked tenants).members
    ≡ select (owner_row first_org 5) tenants.members
serve_all-owner_example =
    serve_all-owner tenant_env tenants first_org 5 changes_asked tenants_key refl refl

serve_isolated_example :
    select (λ (m : OrgMember). not (m.org_id == 1)) (serve tenant_env (removal 1 2) tenants).members
    ≡ select (λ (m : OrgMember). not (m.org_id == 1)) tenants.members
serve_isolated_example = serve_isolated tenant_env tenants (removal 1 2) tenants_key

removed_passes_example :
    authorize_project_access tenant_env leaver 11 (serve_all tenant_env changes_asked tenants)
    ≡ (ok tt, serve_all tenant_env changes_asked tenants)
removed_passes_example =
    removed_passes tenant_env tenants changes_asked leaver 11 (λ call. refl) refl refl

authorize_project_access_iff_example :
    (authorize_project_access tenant_env leaver 22 tenants ≡ (ok tt, tenants))
    ↔ ((any is_super_admin leaver.roles || visible leaver.user_id tenants 22) ≡ true)
authorize_project_access_iff_example =
    authorize_project_access_iff tenant_env leaver 22 tenants (λ call. refl)

joins : (accept tenant_env 5 (codes "token") tenants).0 ≡ ok joined
unfolding accept accept_as query_invitation_by_token add_member insert_member new_member grant_all
    grant_project_access mark_accepted logingestor.Prelude.Text.text_eq
joins = refl

accept-joined_example :
    (i : Invitation) × (u : User) × (find (has_token (codes "token")) tenants.invitations ≡ some i)
    × IsInvitee tenant_env tenants (codes "token") u
    × (is_pending i.accepted_at ≡ true)
    × (before i.expires_at 5 ≡ false)
    × Given tenant_env 5 tenants i u (accept tenant_env 5 (codes "token") tenants).1
accept-joined_example = accept-joined tenant_env 5 (codes "token") tenants refl joins

accept_once_example :
    (e : WebError) × (accept tenant_env 9
        (codes "token")
        (accept tenant_env 5 (codes "token") tenants).1
      ≡ (err e, (accept tenant_env 5 (codes "token") tenants).1))
accept_once_example = accept_once tenant_env tenant_env 5 9 (codes "token") tenants refl joins

accept-visible_example :
    (i : Invitation) × (u : User) × (find (has_token (codes "token")) tenants.invitations ≡ some i)
    × IsInvitee tenant_env tenants (codes "token") u
    × All
        (λ p.
          visible u.id (accept tenant_env 5 (codes "token") tenants).1 p
          ≡ any (has_project_id p) tenants.projects)
        i.project_ids
accept-visible_example = accept-visible tenant_env 5 (codes "token") tenants refl joins

tenants-IsCapped : IsCapped tenants
tenants-IsCapped user = ground arith

create_org-IsCapped_example :
    IsCapped (create_org tenant_env 5 9 (record { name = codes "C"; slug = codes "c" }) tenants).1
create_org-IsCapped_example =
    create_org-IsCapped tenant_env 5 9 (record { name = codes "C"; slug = codes "c" }) tenants
      tenants-IsCapped

-- ===== src/Tenancy/Orgs.antt =====
-- business/domain/orgbus/orgbus.go with the statements of stores/orgdb/orgdb.go, but for the updates of
-- subscriptions that payments make. A member is unique by its id and by organization and user.
pub mod Owned
use logingestor.Prelude.{
  ℕ, Bool, true, false, not, ◌&&◌, ◌||◌, Option, none, some, List, [], ◌∷◌, ◌++◌, any, find, select,
  update, map, length, leb, ◌==◌, if◌then◌else◌,
}
use logingestor.Prelude.Text.{Text, codes, text_eq}
use logingestor.Prelude.Clock.{Time}
use logingestor.Prelude.Result.{ok, err}
use logingestor.Prelude.Exec.{Exec, ◌>>=◌, ◌>>◌, pure, raise_error, reads, writes, or_error}
use logingestor.Alerting.Model.{Uuid}
use logingestor.Tenancy.Model.{
  Role, org_admin, max_orgs_per_user, Org, NewOrg, UpdateOrg, OrgMember, NewOrgMember,
  OrgSubscription, CatalogPlan, OrgProject, Tenants, TenantCall, create_org_row, update_org_row,
  delete_org_row, update_enabled, query_org, count_owned_rows, add_member_row, remove_member_row,
  update_role_row, query_member, query_members, query_user_orgs, query_plan,
  create_subscription_row, BusError, statement, not_found, unique_slug, org_limit_reached,
  member_exists, member_not_found, TenantEnv, TenantExec,
}

abbrev pub asks : {A : Type 0} → TenantEnv → TenantCall → (Tenants → A) → TenantExec A
asks env call f = reads (env.fails call) (statement call) f

abbrev pub changes : TenantEnv → TenantCall → (Tenants → Tenants) → TenantExec (Unit {0})
changes env call f = writes (env.fails call) (statement call) f

abbrev pub owned_by : Uuid → Org → Bool
owned_by user o = elim o.created_by [ none ↦ false | some u ↦ u == user ]

unfoldable pub count_owned : TenantEnv → Uuid → TenantExec ℕ
count_owned env user = asks env count_owned_rows λ w. length (select (owned_by user) w.orgs)

-- An insert that clashes with a row is refused.
abbrev pub inserts :
    TenantEnv
    → TenantCall
    → BusError
    → (Tenants → Bool)
    → (Tenants → Tenants)
    → TenantExec (Unit {0})
inserts env call duplicate clash f w =
    if env.fails call
    then (err (statement call), w)
    else if clash w
    then (err duplicate, w)
    else (ok tt, f w)

abbrev pub org_clash : Org → Tenants → Bool
org_clash o w = any (λ (p : Org). p.id == o.id || text_eq p.slug o.slug) w.orgs

unfoldable pub insert_org : TenantEnv → Org → TenantExec (Unit {0})
insert_org env o =
    inserts env create_org_row unique_slug (org_clash o) λ w. record w { orgs = w.orgs ++ o ∷ [] }

abbrev pub member_clash : OrgMember → Tenants → Bool
member_clash m w =
    any
      (λ (n : OrgMember).
        n.member_id == m.member_id || (n.org_id == m.org_id && n.user_id == m.user_id))
      w.members

unfoldable pub insert_member : TenantEnv → OrgMember → TenantExec (Unit {0})
insert_member env m =
    inserts env add_member_row member_exists (member_clash m)
      λ w. record w { members = w.members ++ m ∷ [] }

unfoldable pub insert_subscription : TenantEnv → OrgSubscription → TenantExec (Unit {0})
insert_subscription env s =
    changes env create_subscription_row λ w. record w { subscriptions = w.subscriptions ++ s ∷ [] }

unfoldable pub query_plan_by_slug : TenantEnv → Text → TenantExec CatalogPlan
query_plan_by_slug env slug = do
  found ← asks env query_plan (λ w. find (λ (p : CatalogPlan). text_eq p.slug slug) w.plans)
  or_error not_found found

abbrev pub made : {A : Type 0} → (Tenants → A) → TenantExec A
made f w = (ok (f w), w)

unfoldable pub new_org : TenantEnv → Uuid → Time → NewOrg → Tenants → Org
new_org env actor now n w = record {
  id = env.fresh_org w.orgs;
  name = n.name;
  slug = n.slug;
  enabled = true;
  created_by = some actor;
  date_created = now;
  date_updated = now;
}

unfoldable pub new_member : TenantEnv → Time → NewOrgMember → Tenants → OrgMember
new_member env now n w = record {
  member_id = env.fresh_member w.members;
  org_id = n.org_id;
  user_id = n.user_id;
  role = n.role;
  joined_at = now;
}

abbrev pub under_cap : ℕ → TenantExec (Unit {0})
under_cap n w = if leb max_orgs_per_user n then (err org_limit_reached, w) else (ok tt, w)

unfoldable pub add_member : TenantEnv → Time → NewOrgMember → TenantExec OrgMember
add_member env now n = do m ← made (new_member env now n); insert_member env m; pure m

-- `Create`: the four writes are not in a transaction.
unfoldable pub create_org : TenantEnv → Uuid → Time → NewOrg → TenantExec Org
create_org env actor now n = do
  owned ← count_owned env actor
  under_cap owned
  o ← made (new_org env actor now n)
  insert_org env o
  admin ← add_member env now (record { org_id = o.id; user_id = actor; role = org_admin })
  plan ← query_plan_by_slug env (codes "free")
  id ← made (λ w. env.fresh_subscription w.subscriptions)
  insert_subscription env (record { subscription_id = id; org_id = o.id; plan_id = plan.plan_id })
  pure o

abbrev given : {A : Type 0} → Option A → A → A
given none a = a
given (some b) a = b

abbrev pub has_org_id : Uuid → Org → Bool
has_org_id id o = o.id == id

unfoldable pub save_org : TenantEnv → Org → TenantExec (Unit {0})
save_org env o =
    inserts env update_org_row unique_slug
      (λ w. any (λ (p : Org). not (p.id == o.id) && text_eq p.slug o.slug) w.orgs)
      λ w. record w {
        orgs =
            update (has_org_id o.id)
              (λ (p : Org). record p {
                name = o.name;
                slug = o.slug;
                enabled = o.enabled;
                date_updated = o.date_updated;
              })
              w.orgs;
      }

unfoldable pub update_org : TenantEnv → Time → Org → UpdateOrg → TenantExec Org
update_org env now o u =
    let o' : Org = record o {
      name = given u.name o.name;
      slug = given u.slug o.slug;
      enabled = given u.enabled o.enabled;
      date_updated = now;
    } in
    do save_org env o'; pure o'

-- `Delete` takes the rows that refer to the organization with it.
unfoldable pub delete_org : TenantEnv → Org → TenantExec (Unit {0})
delete_org env o = changes env delete_org_row λ w.
    let gone : Uuid → Bool =
      λ p. any (λ (q : OrgProject). q.id == p && q.org_id == o.id) w.projects in
    record w {
      orgs = select (λ p. not (has_org_id o.id p)) w.orgs;
      members = select (λ (m : OrgMember). not (m.org_id == o.id)) w.members;
      subscriptions = select (λ (s : OrgSubscription). not (s.org_id == o.id)) w.subscriptions;
      projects = select (λ (p : OrgProject). not (p.org_id == o.id)) w.projects;
      grants = select (λ g. not (gone g.project_id)) w.grants;
      invitations = select (λ i. not (i.org_id == o.id)) w.invitations;
    }

unfoldable pub query_org_by_id : TenantEnv → Uuid → TenantExec Org
query_org_by_id env id = do
  found ← asks env query_org (λ w. find (has_org_id id) w.orgs)
  or_error not_found found

-- `Activate` and `Suspend`
unfoldable pub set_enabled : TenantEnv → Bool → Uuid → TenantExec (Unit {0})
set_enabled env b id =
    changes env update_enabled
      λ w. record w { orgs = update (has_org_id id) (λ (o : Org). record o { enabled = b }) w.orgs }

abbrev pub has_member_id : Uuid → OrgMember → Bool
has_member_id id m = m.member_id == id

unfoldable pub remove_member : TenantEnv → Uuid → TenantExec (Unit {0})
remove_member env id =
    changes env remove_member_row
      λ w. record w { members = select (λ m. not (has_member_id id m)) w.members }

unfoldable pub query_member_by_id : TenantEnv → Uuid → TenantExec OrgMember
query_member_by_id env id = do
  found ← asks env query_member (λ w. find (has_member_id id) w.members)
  or_error member_not_found found

unfoldable pub update_member_role : TenantEnv → Uuid → Role → TenantExec OrgMember
update_member_role env id r = do
  changes env update_role_row λ w. record w {
    members = update (has_member_id id) (λ (m : OrgMember). record m { role = r }) w.members;
  }
  query_member_by_id env id

unfoldable pub members_of : TenantEnv → Uuid → TenantExec (List OrgMember)
members_of env org =
    asks env query_members λ w. select (λ (m : OrgMember). m.org_id == org) w.members

-- `QueryByUserID`: an organization with the user's role in it; the order does not matter here.
abbrev role_in : Uuid → List OrgMember → Org → List (Uuid × Role)
role_in user members o =
    map (λ (m : OrgMember). (o.id, m.role))
      (select (λ (m : OrgMember). m.org_id == o.id && m.user_id == user) members)

unfoldable pub roles_of : Uuid → List OrgMember → List Org → List (Uuid × Role)
roles_of user members [] = []
roles_of user members (o ∷ os) = role_in user members o ++ roles_of user members os

unfoldable pub orgs_of_user : TenantEnv → Uuid → TenantExec (List (Uuid × Role))
orgs_of_user env user = asks env query_user_orgs λ w. roles_of user w.members w.orgs

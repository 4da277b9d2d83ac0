-- ===== src/Tenancy/Handlers/Members.antt =====
-- Any sequence of requests that change members: what it keeps.
use logingestor.Prelude.{
  ◌≡◌, refl, sym, ◌∙◌, ap, Bool, false, not, ◌&&◌, some, List, [], ◌∷◌, find, All-map, select, ◌==◌,
  arith, Bool-cases, inl, inr,
}
use logingestor.Prelude.Rows.{
  IsKeyed, find_only, select-IsKeyed, update-IsKeyed, select-without, select-update,
}
use logingestor.Prelude.Text.{Text}
use logingestor.Alerting.Model.{Uuid}
use logingestor.Tenancy.Model.{
  is_org_admin, Role, Org, OrgMember, Tenants, remove_member_row, update_role_row, TenantEnv,
}
use logingestor.Tenancy.Orgs.{has_member_id, has_org_id}
use logingestor.Tenancy.Handlers.{handle_remove_member, update_role}
use logingestor.Tenancy.Handlers.Guard.{
  remove_member-tables, update_member_role-tables, Guarded, handle_remove_member-cases,
  update_role-cases,
}
use logingestor.Tenancy.Handlers.LastAdmin.{
  member_key, HasAdmin, handle_remove_member-HasAdmin, update_role-HasAdmin,
}

-- A request on a path of an organization: to remove a member, or to give it the role of a text.
pub data MemberRequest : Type 0 where
  removal : Uuid → Uuid → MemberRequest
  new_role : Uuid → Uuid → Text → MemberRequest

abbrev pub path_org : MemberRequest → Uuid
path_org (removal org id) = org
path_org (new_role org id text) = org

-- The tables after a request, whatever it was answered.
unfoldable pub serve : TenantEnv → MemberRequest → Tenants → Tenants
serve env (removal org id) w = (handle_remove_member env org id w).1
serve env (new_role org id text) w = (update_role env org id text w).1

unfoldable pub serve_all : TenantEnv → List MemberRequest → Tenants → Tenants
serve_all env [] w = w
serve_all env (r ∷ rs) w = serve_all env rs (serve env r w)

-- The ids stay apart, the rows that a test passes are those of before, and so are the organizations.
abbrev Same : (OrgMember → Bool) → Tenants → Tenants → Type 0
Same f w u =
    IsKeyed member_key u.members × (select f u.members ≡ select f w.members) × (u.orgs ≡ w.orgs)

-- The test passes no member that the guard lets change, whatever role it gets.
abbrev Blind : TenantEnv → Tenants → Uuid → (OrgMember → Bool) → Type 0
Blind env w org f =
    (m : OrgMember) (stays : Bool) (r : Role)
    → m.org_id ≡ org
    → Guarded env w m stays
    → (f m ≡ false) × (f (record m { role = r }) ≡ false)

module _ (env : TenantEnv) (w : Tenants) (org : Uuid) (keyed : IsKeyed member_key w.members)
    (f : OrgMember → Bool) where
  removal-Same : (id : Uuid) → Blind env w org f → Same f w (handle_remove_member env org id w).1
  removal-Same id blind = elim (handle_remove_member-cases env w org id) [
    | inl same ↦ rw same (keyed, refl, refl)
    | inr (u, (m, found, of_org, guarded)) ↦
        rw (u, remove_member-tables env w id)
          (elim (Bool-cases (env.fails remove_member_row)) [
            | inl b ↦ rw b (keyed, refl, refl)
            | inr b ↦ rw b (
              select-IsKeyed member_key _ w.members keyed,
              select-without f (has_member_id id) w.members (
                  All-map _ w.members
                    (λ x only t. ap f (only t) ∙ (blind m false m.role of_org guarded).0)
                    (find_only member_key id w.members m keyed found)),
              refl,
            )
          ])
  ]

  new_role-Same :
      (id : Uuid) (text : Text) → Blind env w org f → Same f w (update_role env org id text w).1
  new_role-Same id text blind = elim (update_role-cases env w org id text) [
    | inl same ↦ rw same (keyed, refl, refl)
    | inr (r, u, (m, found, of_org, guarded)) ↦
        let (out, out') = blind m (is_org_admin r) r of_org guarded in
        rw (u, update_member_role-tables env w id r)
          (elim (Bool-cases (env.fails update_role_row)) [
            | inl b ↦ rw b (keyed, refl, refl)
            | inr b ↦ rw b (
              update-IsKeyed member_key (has_member_id id) _ (λ x. refl) w.members keyed,
              select-update f (has_member_id id) _ w.members (
                  All-map _ w.members
                    (λ x only t. (
                      ap f (only t) ∙ out,
                      ap (λ (y : OrgMember). f (record y { role = r })) (only t) ∙ out',
                    ))
                    (find_only member_key id w.members m keyed found)),
              refl,
            )
          ])
  ]

serve-Same :
    (env : TenantEnv) (w : Tenants) (q : MemberRequest) (f : OrgMember → Bool)
    → IsKeyed member_key w.members
    → Blind env w (path_org q) f
    → Same f w (serve env q w)
unfolding serve
serve-Same env w (removal org id) f keyed blind = removal-Same env w org keyed f id blind
serve-Same env w (new_role org id text) f keyed blind =
    new_role-Same env w org keyed f id text blind

-- A request on the path of one organization leaves the members of all others as they are, where ids of
-- members are unique.
pub serve_isolated :
    (env : TenantEnv) (w : Tenants) (q : MemberRequest)
    → IsKeyed member_key w.members
    → select (λ (m : OrgMember). not (m.org_id == path_org q)) (serve env q w).members
      ≡ select (λ (m : OrgMember). not (m.org_id == path_org q)) w.members
serve_isolated env w q keyed =
    (serve-Same env w q (λ (m : OrgMember). not (m.org_id == path_org q)) keyed
      (λ m stays r e g. (ground (arith, e), ground (arith, e)))).1

serve-HasAdmin :
    (env : TenantEnv) (w : Tenants) (org : Uuid) (q : MemberRequest)
    → IsKeyed member_key w.members
    → HasAdmin org w
    → HasAdmin org (serve env q w)
unfolding serve
serve-HasAdmin env w org (removal path id) keyed h =
    handle_remove_member-HasAdmin env w path id org keyed h
serve-HasAdmin env w org (new_role path id text) keyed h =
    update_role-HasAdmin env w path id org text keyed h

-- Over any sequence of requests an organization that has an admin keeps one, whatever fails, where ids
-- of members are unique.
pub serve_all-HasAdmin :
    (env : TenantEnv) (w : Tenants) (org : Uuid) (qs : List MemberRequest)
    → IsKeyed member_key w.members
    → HasAdmin org w
    → HasAdmin org (serve_all env qs w)
unfolding serve_all
serve_all-HasAdmin env w org [] keyed h = h
serve_all-HasAdmin env w org (q ∷ qs) keyed h =
    serve_all-HasAdmin env (serve env q w) org qs
      (serve-Same env w q (λ m. false) keyed (λ m stays r e g. (refl, refl))).0
      (serve-HasAdmin env w org q keyed h)

-- The rows of the owner of an organization.
abbrev pub owner_row : Org → Uuid → OrgMember → Bool
owner_row o user m = m.org_id == o.id && m.user_id == user

-- The guard lets no owner change.
owner-Blind :
    (env : TenantEnv) (w : Tenants) (org : Uuid) (o : Org) (user : Uuid)
    → find (has_org_id o.id) w.orgs ≡ some o
    → o.created_by ≡ some user
    → Blind env w org (owner_row o user)
owner-Blind env w org o user found owns m stays r e (o', found', own, why) =
    elim (Bool-cases (owner_row o user m)) [
      | inl t ↦
          let here : m.org_id ≡ o.id = ground (arith, t) in
          let same : some o' ≡ some o =
            sym found' ∙ ap (λ i. find (has_org_id i) w.orgs) here ∙ found in
          absurd (ground (arith, t, same, own, owns))
      | inr n ↦ (n, n)
    ]

-- Over any sequence of requests the owner of an organization stays the member that it is, where ids of
-- members are unique.
pub serve_all-owner :
    (env : TenantEnv) (w : Tenants) (o : Org) (user : Uuid) (qs : List MemberRequest)
    → IsKeyed member_key w.members
    → find (has_org_id o.id) w.orgs ≡ some o
    → o.created_by ≡ some user
    → select (owner_row o user) (serve_all env qs w).members ≡ select (owner_row o user) w.members
unfolding serve_all
serve_all-owner env w o user [] keyed found owns = refl
serve_all-owner env w o user (q ∷ qs) keyed found owns =
    let (keyed', rows, orgs) =
      serve-Same env w q (owner_row o user) keyed
        (owner-Blind env w (path_org q) o user found owns) in
    serve_all-owner env (serve env q w) o user qs keyed' (rw orgs found) owns ∙ rows

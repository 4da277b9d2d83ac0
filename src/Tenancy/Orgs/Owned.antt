-- ===== src/Tenancy/Orgs/Owned.antt =====
-- The cap on the organizations that a user owns.
use logingestor.Prelude.{
  ◌+◌, ◌≤◌, ◌<◌, ◌≡◌, ◌⊎◌, refl, sym, ◌∙◌, Bool, List, [], ◌∷◌, ◌++◌, find, select, length, leb,
  ◌==◌, ==_iff, if◌then◌else◌, arith, Bool-cases, inl, inr,
}
use logingestor.Prelude.Text.{codes, text_eq}
use logingestor.Prelude.Clock.{Time}
use logingestor.Prelude.Exec.{◌>>=◌, ◌>>◌, pure, or_error}
use logingestor.Prelude.Exec.Keeps.{
  Moves, Chains, Moves-bind, Moves-reads, Moves-writes, Moves-or_error,
}
use logingestor.Alerting.Model.{Uuid}
use logingestor.Tenancy.Model.{
  org_admin, max_orgs_per_user, Org, NewOrg, NewOrgMember, CatalogPlan, Tenants, TenantCall,
  create_org_row, count_owned_rows, add_member_row, query_plan, create_subscription_row, BusError,
  statement, member_exists, not_found, TenantEnv, TenantExec,
}
use logingestor.Tenancy.Orgs.{
  asks, owned_by, count_owned, inserts, made, insert_org, org_clash, insert_member, member_clash,
  add_member, new_member, new_org, insert_subscription, query_plan_by_slug, create_org,
}

abbrev SameOrgs : Tenants → Tenants → Type 0
SameOrgs w u = u.orgs ≡ w.orgs

abbrev same_orgs : Chains SameOrgs
same_orgs = record { same = λ w. refl; chain = λ a b c h k. k ∙ h }

Moves-inserts :
    (env : TenantEnv) (call : TenantCall) (e : BusError) (clash : Tenants → Bool)
    (f : Tenants → Tenants)
    → ((w : Tenants) → (f w).orgs ≡ w.orgs)
    → Moves SameOrgs (inserts env call e clash f)
Moves-inserts env call e clash f h w = elim (Bool-cases (env.fails call)) [
  | inl t ↦ rw t refl
  | inr n ↦ elim (Bool-cases (clash w)) [ inl t ↦ rw (n, t) refl | inr m ↦ rw (n, m) (h w) ]
]

Moves-made : {A : Type 0} (f : Tenants → A) → Moves SameOrgs (made f)
Moves-made f w = refl

-- What follows the insert of the organization.
rest_of : TenantEnv → Uuid → Time → Org → TenantExec Org
rest_of env actor now o = do
  admin ← add_member env now (record { org_id = o.id; user_id = actor; role = org_admin })
  plan ← query_plan_by_slug env (codes "free")
  id ← made (λ w. env.fresh_subscription w.subscriptions)
  insert_subscription env (record { subscription_id = id; org_id = o.id; plan_id = plan.plan_id })
  pure o

add_member-SameOrgs :
    (env : TenantEnv) (now : Time) (n : NewOrgMember) → Moves SameOrgs (add_member env now n)
unfolding add_member insert_member
add_member-SameOrgs env now n =
    Moves-bind same_orgs (made (new_member env now n)) (λ m. insert_member env m >>= λ _. pure m)
      (Moves-made (new_member env now n))
      λ m.
        Moves-bind same_orgs (insert_member env m) (λ _. pure m)
          (Moves-inserts env add_member_row member_exists (member_clash m) _ (λ w. refl))
          (λ _ w. refl)

query_plan-SameOrgs : (env : TenantEnv) → Moves SameOrgs (query_plan_by_slug env (codes "free"))
unfolding query_plan_by_slug
query_plan-SameOrgs env =
    Moves-bind same_orgs
      (asks env query_plan (λ w. find (λ (p : CatalogPlan). text_eq p.slug (codes "free")) w.plans))
      (λ found. or_error not_found found)
      (Moves-reads same_orgs (env.fails query_plan) (statement query_plan) _)
      (λ found. Moves-or_error same_orgs not_found found)

rest_of-SameOrgs :
    (env : TenantEnv) (actor : Uuid) (now : Time) (o : Org)
    → Moves SameOrgs (rest_of env actor now o)
unfolding rest_of insert_subscription
rest_of-SameOrgs env actor now o =
    let fresh = λ (w : Tenants). env.fresh_subscription w.subscriptions in
    let subscribe : CatalogPlan → Uuid → TenantExec Org = λ plan id.
      insert_subscription env
        (record { subscription_id = id; org_id = o.id; plan_id = plan.plan_id })
      >>= λ _. pure o in
    let admin : NewOrgMember = record { org_id = o.id; user_id = actor; role = org_admin } in
    Moves-bind same_orgs (add_member env now admin)
      (λ m.
        query_plan_by_slug env (codes "free") >>= λ plan. made fresh >>= λ id. subscribe plan id)
      (add_member-SameOrgs env now admin)
      λ m.
        Moves-bind same_orgs (query_plan_by_slug env (codes "free"))
          (λ plan. made fresh >>= λ id. subscribe plan id) (query_plan-SameOrgs env)
          λ plan.
            Moves-bind same_orgs (made fresh) (λ id. subscribe plan id) (Moves-made fresh)
              λ id.
                Moves-bind same_orgs
                  (insert_subscription env
                    (record { subscription_id = id; org_id = o.id; plan_id = plan.plan_id }))
                  (λ _. pure o)
                  (Moves-writes same_orgs (env.fails create_subscription_row)
                    (statement create_subscription_row) _ (λ w. refl))
                  (λ _ w. refl)

-- No user owns more than the cap.
abbrev pub IsCapped : Tenants → Type 0
IsCapped w = (user : Uuid) → length (select (owned_by user) w.orgs) ≤ max_orgs_per_user

length-select-last :
    (f : Org → Bool) (xs : List Org) (o : Org)
    → length (select f (xs ++ o ∷ [])) ≡ length (select f xs) + (if f o then 1 else 0)
length-select-last f [] o = ground arith
length-select-last f (x ∷ xs) o = ground (arith, length-select-last f xs o)

-- The organizations are those of before, or one of the actor is new and there was room for it.
create_org-cases :
    (env : TenantEnv) (actor : Uuid) (now : Time) (n : NewOrg) (w : Tenants)
    → (let v = (create_org env actor now n w).1 in
        (v.orgs ≡ w.orgs)
        ⊎ ((v.orgs ≡ w.orgs ++ new_org env actor now n w ∷ [])
            × (length (select (owned_by actor) w.orgs) < max_orgs_per_user)))
unfolding create_org count_owned insert_org rest_of
create_org-cases env actor now n w = elim (Bool-cases (env.fails count_owned_rows)) [
  | inl f ↦ inl (rw f refl)
  | inr f ↦ elim (Bool-cases (leb max_orgs_per_user (length (select (owned_by actor) w.orgs)))) [
    | inl c ↦ inl (rw (f, c) refl)
    | inr c ↦ elim (Bool-cases (env.fails create_org_row)) [
      | inl g ↦ inl (rw (f, c, g) refl)
      | inr g ↦ elim (Bool-cases (org_clash (new_org env actor now n w) w)) [
        | inl k ↦ inl (rw (f, c, g, k) refl)
        | inr k ↦ inr (
          rw (f, c, g, k)
              (rest_of-SameOrgs env actor now (new_org env actor now n w)
                (record w { orgs = w.orgs ++ new_org env actor now n w ∷ [] })),
          ground (arith, c),
        )
      ]
    ]
  ]
]

new_owner :
    (env : TenantEnv) (actor user : Uuid) (now : Time) (n : NewOrg) (w : Tenants)
    → owned_by user (new_org env actor now n w) ≡ (actor == user)
unfolding new_org
new_owner env actor user now n w = refl

-- Creating an organization keeps to the cap of every user, whatever fails.
pub create_org-IsCapped :
    (env : TenantEnv) (actor : Uuid) (now : Time) (n : NewOrg) (w : Tenants)
    → IsCapped w
    → IsCapped (create_org env actor now n w).1
create_org-IsCapped env actor now n w h user = elim (create_org-cases env actor now n w) [
  | inl same ↦ rw same (h user)
  | inr (added, room) ↦
      let count = length-select-last (owned_by user) w.orgs (new_org env actor now n w) in
      elim (Bool-cases (actor == user)) [
        | inl t ↦
            let is_it : actor ≡ user = (==_iff actor user).0 t in
            let room' : length (select (owned_by user) w.orgs) < max_orgs_per_user =
              rw (sym is_it) room in
            rw added (ground (arith, count, new_owner env actor user now n w, t, room'))
        | inr d ↦ rw added (ground (arith, count, new_owner env actor user now n w, d, h user))
      ]
]

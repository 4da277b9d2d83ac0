-- ===== src/Tenancy/Invites/Others.antt =====
-- Accepting an invitation leaves the members and the grants of all other users alone.
use logingestor.Prelude.{
  ◌≡◌, refl, ◌∙◌, ap, Bool, false, not, ◌||◌, List, [], ◌∷◌, ◌++◌, any, select, ◌==◌, arith,
  Bool-cases, inl, inr,
}
use logingestor.Prelude.Clock.{Time}
use logingestor.Alerting.Model.{Uuid}
use logingestor.Tenancy.Model.{OrgMember, Grant, Invitation, Tenants, grant_access, TenantEnv}
use logingestor.Tenancy.Access.{is_grant, has_project_id, granted}
use logingestor.Tenancy.Invites.{join, grant_all}
use logingestor.Tenancy.Invites.Steps.{join-cases, grant_all-blocked, grant_all-goes}

abbrev pub other_members : Uuid → Tenants → List OrgMember
other_members user w = select (λ (m : OrgMember). not (m.user_id == user)) w.members

abbrev pub other_grants : Uuid → Tenants → List Grant
other_grants user w = select (λ (g : Grant). not (g.user_id == user)) w.grants

abbrev pub SameOthers : Uuid → Tenants → Tenants → Type 0
SameOthers user w v =
    (other_members user v ≡ other_members user w) × (other_grants user v ≡ other_grants user w)

select-last :
    {A : Type 0} (f : A → Bool) (xs : List A) (a : A)
    → f a ≡ false
    → select f (xs ++ a ∷ []) ≡ select f xs
select-last f [] a h = ground (arith, h)
select-last f (x ∷ xs) a h = ground (arith, select-last f xs a h)

granted-SameOthers : (user p : Uuid) (w : Tenants) → SameOthers user w (granted user p w)
granted-SameOthers user p w = elim (Bool-cases (any (is_grant user p) w.grants)) [
  | inl t ↦ rw t (refl, refl)
  | inr f ↦
      rw f (refl, select-last (λ (g : Grant). not (g.user_id == user)) w.grants _ (ground arith))
]

module _ (env : TenantEnv) (user : Uuid) where
  pub join-SameOthers :
      (now : Time) (i : Invitation) (w : Tenants) → SameOthers user w (join env now user i w).1
  join-SameOthers now i w = elim (join-cases env user now i w) [
    | inl e ↦ rw e (refl, refl)
    | inr (inl (e, clash)) ↦ rw e (refl, refl)
    | inr (inr e) ↦
        rw e (
          select-last (λ (m : OrgMember). not (m.user_id == user)) w.members _ (ground arith),
          refl,
        )
  ]

  pub grant_all-SameOthers :
      (ps : List Uuid) (w : Tenants) → SameOthers user w (grant_all env user ps w).1
  unfolding grant_all
  grant_all-SameOthers [] w = (refl, refl)
  grant_all-SameOthers (p ∷ ps) w =
      elim (Bool-cases (env.fails grant_access || not (any (has_project_id p) w.projects))) [
        | inl f ↦
            let same = ap (λ x. x.1) (grant_all-blocked env user p ps w f) in
            (ap (other_members user) same, ap (other_grants user) same)
        | inr f ↦
            let same = ap (λ x. x.1) (grant_all-goes env user p ps w f) in
            let (m, g) = grant_all-SameOthers ps (granted user p w) in
            let (m', g') = granted-SameOthers user p w in
            (ap (other_members user) same ∙ m ∙ m', ap (other_grants user) same ∙ g ∙ g')
      ]

-- ===== src/Service/InviteDao/Membership.antt =====
-- Who is a member of an environment, and who administers it.
use lil_bobby_tables_my_crt.Common.Tests.{
  ℕ, ap, sym, ◌∙◌, eq_self, arith, ◌≡◌, refl, ◌↔◌, ◌⊎◌, inl, inr, true, Option, none, some, List,
  [], ◌∷◌, Bool-cases,
}
use lil_bobby_tables_my_crt.Common.Lists.{head, select, In, In-select}
use mathlib.Core.Bool.{true≢false}
use lil_bobby_tables_my_crt.Service.Tables.{User, EnvironmentUser, Tables, is_id}
use lil_bobby_tables_my_crt.Service.EnvironmentDao.{Environment}
use lil_bobby_tables_my_crt.Service.InviteDao.{membership, is_membership, member_of_row}

member_of_row-head :
    (user : User) (xs : List EnvironmentUser)
    → ((member_of_row user (head xs)).is_member ≡ true) ↔ ((m : EnvironmentUser) × In m xs)
member_of_row-head user [] = (λ h. cc, λ h. absurd h.1)
member_of_row-head user (x ∷ xs) = (λ h. (x, inl refl), λ h. refl)

owner : (o : Option ℕ) (n : ℕ) → is_id o n ≡ true → o ≡ some n
owner none n h = cc
owner (some m) n h = ap (λ k. some k) (ground (arith, h))

own : (o : Option ℕ) (n : ℕ) → o ≡ some n → is_id o n ≡ true
own o n h = rw h (eq_self n)

-- A user is a member exactly if the environment has the user as its owner, or a row of the members is
-- of this user and this environment and is accepted.
pub membership-is_member :
    (user : User) (environment : Environment) (t : Tables)
    → ((membership user environment t).is_member ≡ true) ↔ (
        (environment.owner_id ≡ some user.id)
        ⊎ ((m : EnvironmentUser) × In m t.members
            × (m.user_id ≡ user.id)
            × (m.environment_id ≡ environment.id)
            × (m.accepted ≡ true)))
unfolding membership
membership-is_member user environment t = elim (Bool-cases (is_id environment.owner_id user.id)) [
  | inl e ↦ rw e ((λ h. inl (owner environment.owner_id user.id e)), λ h. refl)
  | inr e ↦
      let iff = member_of_row-head user (select (is_membership user environment) t.members) in
      rw e (
        (λ h.
            let r = iff.0 h in
            let p = (In-select (is_membership user environment) t.members r.0).0 r.1 in
            inr (r.0, p.0, ground (arith, p.1), ground (arith, p.1), ground (arith, p.1))),
        λ h. elim h [
          | inl p ↦ absurd (true≢false (sym (own environment.owner_id user.id p) ∙ e))
          | inr r ↦ iff.1 (
            r.0,
            (In-select (is_membership user environment) t.members r.0).1
                (r.1, ground (arith, r.2, r.3, r.4)),
          )
        ],
      )
]

-- An administrator is a member.
pub membership-is_admin :
    (user : User) (environment : Environment) (t : Tables)
    → (membership user environment t).is_admin ≡ true
    → (membership user environment t).is_member ≡ true
unfolding membership
membership-is_admin user environment t h = elim (Bool-cases (is_id environment.owner_id user.id)) [
  | inl e ↦ rw e refl
  | inr e ↦ rw e (by_row (head (select (is_membership user environment) t.members)) (rw e at h))
]
  where
    by_row :
        (o : Option EnvironmentUser)
        → (member_of_row user o).is_admin ≡ true
        → (member_of_row user o).is_member ≡ true
    by_row none p = p
    by_row (some m) p = refl

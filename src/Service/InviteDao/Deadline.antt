-- ===== src/Service/InviteDao/Deadline.antt =====
-- Invitations are accepted within a day, and every query keeps that so.
use mathlib.Core.Path.{subst}
use lil_bobby_tables_my_crt.Common.Tests.{
  ℕ, suc, ◌+◌, ◌≤◌, ◌<◌, ◌≡◌, refl, true, false, not, some, [], ◌∷◌, arith, ◌==◌,
}
use lil_bobby_tables_my_crt.Common.Lists.{In, All, All-append, All-map_of}
use lil_bobby_tables_my_crt.Service.Tables.{EnvironmentUser, Tables, delete_where}
use lil_bobby_tables_my_crt.Service.Tables.Rows.{
  Distinct, Distinct-eq, Distinct-append, Distinct-select, Distinct-update_where, All-update_where,
  All-select, All-In,
}
use lil_bobby_tables_my_crt.Service.InviteDao.{
  ms_per_day, with_member, with_accepted, accepted_row, with_admin, without_invite,
}

-- If it is accepted, then not later than a day after it was made.
abbrev pub InTime : EnvironmentUser → Type 0
InTime m =
    m.accepted ≡ true → (at : ℕ) × (m.accepted_at ≡ some at) × (at ≤ ms_per_day + m.created_at)

-- The members in good order: different ids below the counter, each accepted in time.
pub record Valid (t : Tables) : Type 0 where
  pub distinct : Distinct (λ m. m.id) t.members
  pub below : All (λ m. m.id < t.next_member) t.members
  pub in_time : All InTime t.members

pub added :
    (t : Tables) (m : EnvironmentUser)
    → m.id ≡ t.next_member
    → m.accepted ≡ false
    → Valid t
    → Valid (with_member m t)
unfolding with_member
added t m e f v = record {
  distinct = Distinct-append (λ x. x.id) t.members m v.distinct (rw e v.below);
  below =
      All-append (λ x. x.id < suc t.next_member) t.members (m ∷ [])
        (All-map_of (λ x. x.id < t.next_member) (λ x. x.id < suc t.next_member) (λ x h. omega arith)
          t.members v.below)
        (omega (arith, e), tt);
  in_time = All-append InTime t.members (m ∷ []) v.in_time ((λ h. cc), tt);
}

pub removed : (t : Tables) (id : ℕ) → Valid t → Valid (without_invite id t)
unfolding without_invite delete_where
removed t id v = record {
  distinct = Distinct-select (λ x. x.id) (λ m. not (m.id == id)) t.members v.distinct;
  below = All-select (λ x. x.id < t.next_member) (λ m. not (m.id == id)) t.members v.below;
  in_time = All-select InTime (λ m. not (m.id == id)) t.members v.in_time;
}

pub promoted : (t : Tables) (id : ℕ) → Valid t → Valid (with_admin id t)
unfolding with_admin
promoted t id v = record {
  distinct =
      Distinct-update_where (λ x. x.id) (λ m. m.id == id) (λ m. record m { is_admin = true })
        (λ m. refl) t.members v.distinct;
  below =
      All-update_where (λ x. x.id < t.next_member) (λ m. m.id == id)
        (λ m. record m { is_admin = true }) t.members v.below
        (λ x i p. All-In (λ y. y.id < t.next_member) t.members x v.below i);
  in_time =
      All-update_where InTime (λ m. m.id == id) (λ m. record m { is_admin = true }) t.members
        v.in_time (λ x i p. All-In InTime t.members x v.in_time i);
}

pub accepted :
    (t : Tables) (now : ℕ) (m : EnvironmentUser)
    → In m t.members
    → now ≤ ms_per_day + m.created_at
    → Valid t
    → Valid (with_accepted now m.id t)
unfolding with_accepted accepted_row
accepted t now m i lt v = record {
  distinct =
      Distinct-update_where (λ x. x.id) (λ x. x.id == m.id) (accepted_row now) (λ x. refl) t.members
        v.distinct;
  below =
      All-update_where (λ x. x.id < t.next_member) (λ x. x.id == m.id) (accepted_row now) t.members
        v.below (λ x j p. All-In (λ y. y.id < t.next_member) t.members x v.below j);
  in_time =
      All-update_where InTime (λ x. x.id == m.id) (accepted_row now) t.members v.in_time
        (λ x j p h. (
          now,
          refl,
          subst (λ y. now ≤ ms_per_day + y.created_at)
              (Distinct-eq (λ y. y.id) t.members m x v.distinct i j (ground arith)) lt,
        ));
}

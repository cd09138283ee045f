-- ===== src/Service/EnvironmentRoutes/Deletion.antt =====
-- Who may delete an environment, and what the deletion takes along.
use lil_bobby_tables_my_crt.Common.Tests.{
  ◌↔◌, ℕ, String, ◌≡◌, refl, inl, inr, Bool, true, false, not, ◌&&◌, none, some, List, arith, ◌==◌,
  Bool-cases, Option-cases,
}
use lil_bobby_tables_my_crt.Common.Lists.{any, In, In-select}
use lil_bobby_tables_my_crt.Common.Exec.{ok, throw}
use lil_bobby_tables_my_crt.Common.Action.{◌>>=◌, pure, raise}
use lil_bobby_tables_my_crt.Service.Tables.{
  User, EnvironmentRow, CaptureRow, ReplayRow, Tables, is_id, join, delete_where, first_row,
}
use lil_bobby_tables_my_crt.Service.Tables.Rows.{select-delete_where, select-join}
use lil_bobby_tables_my_crt.Service.Http.{World, Failure, query, execute, fail, required}
use lil_bobby_tables_my_crt.Service.EnvironmentDao.{Environment, environment_of, get_environment}
use lil_bobby_tables_my_crt.Service.EnvironmentDao.Editing.{
  delete_environment, delete_found_environment, delete_db_reference, delete_aws_keys,
  delete_s3_reference, without_captures_of, without_environment, has_id,
}
use lil_bobby_tables_my_crt.Service.InviteDao.{membership, get_user_membership}
use lil_bobby_tables_my_crt.Service.EnvironmentRoutes.{rename_environment, remove_environment}

-- The user administers the environment of this id.
pub record AdministersIt (user : User) (id : ℕ) (t : Tables) : Type 0 where
  pub environment : Environment
  pub exists : environment_of id t ≡ some environment
  pub is_admin : (membership user environment t).is_admin ≡ true

-- Whoever does not administer an environment, or names none that exists, can neither rename nor delete it:
-- both routes fail and change nothing.
pub only_its_administrators :
    (user : User) (id : ℕ) (name : String) (is_delete_logs : Bool) (w : World)
    → ¬ AdministersIt user id w.tables
    → ((e : Failure) × (rename_environment user id name w ≡ (throw e, w)))
      × ((e : Failure) × (remove_environment user id is_delete_logs w ≡ (throw e, w)))
unfolding rename_environment remove_environment ◌>>=◌ get_environment get_user_membership required
    query fail raise
only_its_administrators user id name is_delete_logs w not_admin =
    elim (Option-cases (environment_of id w.tables)) [
      | inl e ↦ rw e ((_, refl), (_, refl))
      | inr (env, e) ↦ elim (Bool-cases (membership user env w.tables).is_admin) [
        | inl p ↦ absurd (not_admin (record { environment = env; exists = e; is_admin = p }))
        | inr p ↦ rw e (rw p ((_, refl), (_, refl)))
      ]
    ]

-- No replay uses the database of the environment itself.
abbrev pub Unused : Environment → Tables → Type 0
Unused env t =
    any (λ d. has_id env.db_id d.id && any (λ r. is_id r.db_id d.id) t.replays) t.databases ≡ false

abbrev pub after_deletion : Environment → ℕ → Tables → Tables
after_deletion env id t = record t {
  databases = delete_where (λ d. has_id env.db_id d.id) t.databases;
  aws_keys = delete_where (λ k. has_id env.aws_keys_id k.id) t.aws_keys;
  s3_references = delete_where (λ s. has_id env.s3_id s.id) t.s3_references;
  captures = delete_where (λ c. is_id c.env_id id) t.captures;
  replays =
      delete_where (λ r. any (λ c. is_id c.env_id id && is_id r.capture_id c.id) t.captures)
        t.replays;
  environments = delete_where (λ e. e.id == id) t.environments;
  members = delete_where (λ m. m.environment_id == id) t.members;
}

pub removed :
    (user : User) (id : ℕ) (w : World) (a : AdministersIt user id w.tables)
    → Unused a.environment w.tables
    → remove_environment user id false w
      ≡ (ok (some tt), record w { tables = after_deletion a.environment id w.tables })
unfolding remove_environment ◌>>=◌ get_environment get_user_membership required query fail raise
    delete_environment delete_found_environment delete_db_reference delete_aws_keys
    delete_s3_reference without_captures_of without_environment execute pure
removed user id w a unused = rw a.exists (rw a.is_admin (rw a.exists (rw unused refl)))

module _ {A : Type 0} where
  -- The rows that are left are those that do not meet the condition.
  abbrev pub AllBut : (A → Bool) → List A → List A → Type 0
  AllBut test before after = (x : A) → In x after ↔ (In x before × (test x ≡ false))

  pub delete_where-AllBut : (test : A → Bool) (xs : List A) → AllBut test xs (delete_where test xs)
  unfolding delete_where
  delete_where-AllBut test xs x = (
    (λ i. let h = (In-select (λ a. not (test a)) xs x).0 i in (h.0, ground (arith, h.1))),
    λ h. (In-select (λ a. not (test a)) xs x).1 (h.0, rw h.1 refl),
  )

-- The replay is of a capture of the environment.
abbrev pub replays_in : ℕ → List CaptureRow → ReplayRow → Bool
replays_in id captures r = any (λ c. is_id c.env_id id && is_id r.capture_id c.id) captures

no_environment_left :
    (id : ℕ) (t v : Tables)
    → v.environments ≡ delete_where (λ e. e.id == id) t.environments
    → environment_of id v ≡ none
unfolding environment_of first_row join
no_environment_left id t v e =
    rw
      (select-join (λ (e : EnvironmentRow). e.id == id) (λ e u. is_id e.owner_id u.id)
        v.environments v.users)
      (rw e (rw (select-delete_where (λ (e : EnvironmentRow). e.id == id) t.environments) refl))

-- A deletion by an administrator of an environment whose own database no replay uses succeeds: the
-- environment is not found any more, its captures, the replays of those and its members are gone,
-- and all other captures, replays, members and environments, and the users, are left.
pub remove_environment_lem :
    (user : User) (id : ℕ) (w : World) (a : AdministersIt user id w.tables)
    → Unused a.environment w.tables
    → let t = w.tables in
      let v = (remove_environment user id false w).1.tables in
      ((remove_environment user id false w).0 ≡ ok (some tt))
      × (environment_of id v ≡ none)
      × AllBut (λ e. e.id == id) t.environments v.environments
      × AllBut (λ c. is_id c.env_id id) t.captures v.captures
      × AllBut (replays_in id t.captures) t.replays v.replays
      × AllBut (λ m. m.environment_id == id) t.members v.members
      × (v.users ≡ t.users)
remove_environment_lem user id w a unused = rw (removed user id w a unused) (
  refl,
  no_environment_left id w.tables (after_deletion a.environment id w.tables) refl,
  delete_where-AllBut (λ e. e.id == id) w.tables.environments,
  delete_where-AllBut (λ c. is_id c.env_id id) w.tables.captures,
  delete_where-AllBut (replays_in id w.tables.captures) w.tables.replays,
  delete_where-AllBut (λ m. m.environment_id == id) w.tables.members,
  refl,
)

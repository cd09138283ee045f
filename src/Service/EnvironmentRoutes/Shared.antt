-- ===== src/Service/EnvironmentRoutes/Shared.antt =====
-- Keys that two environments use, when one of them is deleted.
use lil_bobby_tables_my_crt.Common.Tests.{
  sym, ap, ◌∙◌, ◌≢◌, ◌<◌, ℕ, ◌≡◌, refl, inl, inr, true, false, none, some, List, [], ◌∷◌, arith,
  ◌==◌, Bool-cases, Option-cases,
}
use lil_bobby_tables_my_crt.Common.Lists.{All, select, In, In-select}
use lil_bobby_tables_my_crt.Service.Tables.Rows.{All-In, select-join, In-join}
use lil_bobby_tables_my_crt.Service.Tables.{
  User, EnvironmentRow, DbReference, S3Reference, AwsKeys, Tables, is_id, join, delete_where,
  first_row,
}
use lil_bobby_tables_my_crt.Service.Http.{World}
use lil_bobby_tables_my_crt.Service.EnvironmentDao.{
  EnvironmentFull, full_rows, row_to_environment_full, environment_of, environment_full_of,
}
use lil_bobby_tables_my_crt.Service.EnvironmentDao.Editing.{has_id}
use lil_bobby_tables_my_crt.Service.EnvironmentRoutes.{remove_environment}
use lil_bobby_tables_my_crt.Service.EnvironmentRoutes.Deletion.{
  AdministersIt, Unused, after_deletion, removed, delete_where-AllBut,
}

select-others :
    (id other : ℕ) (rows : List EnvironmentRow)
    → other ≢ id
    → select (λ e. e.id == other) (delete_where (λ e. e.id == id) rows)
      ≡ select (λ e. e.id == other) rows
unfolding select delete_where
select-others id other [] ne = refl
select-others id other (e ∷ rows) ne = elim (Bool-cases (e.id == id)) [
  | inl p ↦
      let q : (e.id == other) ≡ false = ground (arith, ne) in
      rw p (rw q (select-others id other rows ne))
  | inr p ↦ elim (Bool-cases (e.id == other)) [
    | inl q ↦ rw p (rw q (ap (λ es. e ∷ es) (select-others id other rows ne)))
    | inr q ↦ rw p (rw q (select-others id other rows ne))
  ]
]

other_environment_left :
    (id other : ℕ) (t v : Tables)
    → v.environments ≡ delete_where (λ e. e.id == id) t.environments
    → v.users ≡ t.users
    → other ≢ id
    → environment_of other v ≡ environment_of other t
unfolding environment_of
other_environment_left id other t v e u ne =
    let on = λ (e : EnvironmentRow) (u : User). is_id e.owner_id u.id in
    let here = λ (e : EnvironmentRow). e.id == other in
    rw (select-join here on v.environments v.users) (
      rw (select-join here on t.environments t.users)
        (rw e (rw u (rw (select-others id other t.environments ne) refl))))

first_row-In :
    {A B : Type 0} (f : A → B) (xs : List A) (b : B) → first_row f xs ≡ some b → (a : A) × In a xs
unfolding first_row
first_row-In f [] b h = cc
first_row-In f (a ∷ xs) b h = (a, inl refl)

-- An environment that has all that it holds has a row, with keys.
full_row-keys :
    (id : ℕ) (t : Tables) (e : EnvironmentFull)
    → environment_full_of id t ≡ some e
    → (row : EnvironmentRow) × (keys : AwsKeys) × In row t.environments
      × (row.id ≡ id)
      × In keys t.aws_keys
      × (is_id row.aws_keys_id keys.id ≡ true)
unfolding environment_full_of
full_row-keys id t e h =
    let with_db = join (λ e d. is_id e.db_id d.id) t.environments t.databases in
    let with_s3 = join (λ r s. is_id r.0.s3_id s.id) with_db t.s3_references in
    let on_keys = λ (r : (EnvironmentRow × DbReference) × S3Reference) (a : AwsKeys).
      is_id r.0.0.aws_keys_id a.id in
    let with_keys = join on_keys with_s3 t.aws_keys in
    let f = first_row-In row_to_environment_full _ e h in
    let s = (In-select (λ r. r.0.0.0.0.id == id) (full_rows t) f.0).0 f.1 in
    let keyed =
      (In-join (λ r u. is_id r.0.0.0.owner_id u.id) with_keys t.users f.0.0 f.0.1).0 s.0 in
    let stored = (In-join on_keys with_s3 t.aws_keys f.0.0.0 f.0.0.1).0 keyed.0 in
    let based =
      (In-join (λ r s. is_id r.0.s3_id s.id) with_db t.s3_references f.0.0.0.0 f.0.0.0.1).0
        stored.0 in
    let row =
      (In-join (λ e d. is_id e.db_id d.id) t.environments t.databases f.0.0.0.0.0 f.0.0.0.0.1).0
        based.0 in
    (f.0.0.0.0.0, f.0.0.1, row.0, ground (arith, s.1), stored.1, stored.2)

-- When an environment is deleted by its administrator, its keys are deleted even where another environment
-- uses them too: that one is still found, but no longer with its keys, its bucket and its database, which
-- the routes that read files or metrics, or show it, ask for.
pub remove_environment_shared_keys :
    (user : User) (id other k : ℕ) (w : World) (a : AdministersIt user id w.tables)
    → Unused a.environment w.tables
    → a.environment.aws_keys_id ≡ some k
    → 0 < k
    → other ≢ id
    → All (λ e. e.id ≡ other → e.aws_keys_id ≡ some k) w.tables.environments
    → let v = (remove_environment user id false w).1.tables in
      (environment_of other v ≡ environment_of other w.tables)
      × (environment_full_of other v ≡ none)
remove_environment_shared_keys user id other k w a unused keys positive ne shared =
    let v = after_deletion a.environment id w.tables in
    rw (removed user id w a unused) (
      other_environment_left id other w.tables v refl refl ne,
      elim (Option-cases (environment_full_of other v)) [
        | inl e ↦ e
        | inr (full, e) ↦
            let r = full_row-keys other v full e in
            let row = ((delete_where-AllBut (λ e. e.id == id) w.tables.environments) r.0).0 r.2 in
            let key =
              ((delete_where-AllBut (λ (x : AwsKeys). has_id a.environment.aws_keys_id x.id)
                    w.tables.aws_keys)
                  r.1).0
                r.4 in
            let held =
              All-In (λ (e : EnvironmentRow). e.id ≡ other → e.aws_keys_id ≡ some k)
                w.tables.environments r.0 shared row.0 r.3 in
            absurd (
              gone k r.1.id positive (ap (λ o. has_id o r.1.id) (sym keys) ∙ key.1)
                (rw held at r.5))
      ],
    )
  where
    gone : (k n : ℕ) → 0 < k → has_id (some k) n ≡ false → is_id (some k) n ≡ true → ⊥
    gone k n lt h i = ground (arith, lt, h, i)

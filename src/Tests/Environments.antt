-- ===== src/Tests/Environments.antt =====
-- Environments that are deleted, and a mimic that is asked for.
use lil_bobby_tables_my_crt.Common.Tests.{
  ◌≡◌, refl, sym, ap, ◌∙◌, true, false, Option, none, some, [], ◌∷◌, ◌++◌, arith, ◌==◌,
}
use lil_bobby_tables_my_crt.Common.Lists.{select, any}
use lil_bobby_tables_my_crt.Common.Exec.{ok}
use mathlib.Core.Bool.{true≢false}
use lil_bobby_tables_my_crt.Service.Creation.Mimics.Asked.{asked_row, asked_replays}
use lil_bobby_tables_my_crt.Service.Http.{launch_mimic, stop_at, World}
use lil_bobby_tables_my_crt.Service.EnvironmentDao.{environment_full_of, environment_of}
use lil_bobby_tables_my_crt.Service.EnvironmentRoutes.{remove_environment}
use lil_bobby_tables_my_crt.Service.EnvironmentRoutes.Deletion.{
  AllBut, replays_in, remove_environment_lem, AdministersIt, Unused,
}
use lil_bobby_tables_my_crt.Service.EnvironmentRoutes.Shared.{remove_environment_shared_keys}
use lil_bobby_tables_my_crt.Service.Creation.Mimics.{
  MimicBody, Mimic, create_mimic_template, replay_ids,
}
use lil_bobby_tables_my_crt.Service.Creation.Mimics.Launched.{create_mimic_template_lem}
use lil_bobby_tables_my_crt.Service.Tables.{is_id, first_row, join, EnvironmentRow}
use lil_bobby_tables_my_crt.Tests.Sample.{bob, small, world, alice, staging, staging_environment}
use lil_bobby_tables_my_crt.Service.InviteDao.{membership}

-- A second environment with the keys of the first, and no replay on the database of either.
abbrev testing : EnvironmentRow
testing = record staging { id = 2; name = "testing" }

abbrev quiet : World
quiet = record world {
  tables = record small { environments = staging ∷ testing ∷ []; replays = [] };
}

quiet-environment : environment_of 1 quiet.tables ≡ some staging_environment
unfolding environment_of join select first_row
quiet-environment = refl

quiet_is_admin : (membership alice staging_environment quiet.tables).is_admin ≡ true
unfolding membership
quiet_is_admin = refl

abbrev alice_owns : AdministersIt alice 1 quiet.tables
alice_owns = record {
  environment = staging_environment;
  exists = quiet-environment;
  is_admin = quiet_is_admin;
}

quiet-Unused : Unused staging_environment quiet.tables
unfolding any
quiet-Unused = refl

bob_is_no_member : (membership bob staging_environment quiet.tables).is_admin ≡ false
unfolding membership select
bob_is_no_member = refl

some_equal : {A : Type 0} {a b : A} → ◌≡◌ {A = Option A} (some a) (some b) → a ≡ b
some_equal p = cc

bob_owns_none : ¬ AdministersIt bob 1 quiet.tables
bob_owns_none a =
    let e = some_equal (sym quiet-environment ∙ a.exists) in
    true≢false (
      sym a.is_admin
      ∙ (ap (λ x. (membership bob x quiet.tables).is_admin) (sym e) ∙ bob_is_no_member))

remove_environment_lem_example :
    let t = quiet.tables in
    let v = (remove_environment alice 1 false quiet).1.tables in
    ((remove_environment alice 1 false quiet).0 ≡ ok (some tt))
    × (environment_of 1 v ≡ none)
    × AllBut (λ e. e.id == 1) t.environments v.environments
    × AllBut (λ c. is_id c.env_id 1) t.captures v.captures
    × AllBut (replays_in 1 t.captures) t.replays v.replays
    × AllBut (λ m. m.environment_id == 1) t.members v.members
    × (v.users ≡ t.users)
remove_environment_lem_example = remove_environment_lem alice 1 quiet alice_owns quiet-Unused

remove_environment_shared_keys_example :
    let v = (remove_environment alice 1 false quiet).1.tables in
    (environment_of 2 v ≡ environment_of 2 quiet.tables) × (environment_full_of 2 v ≡ none)
remove_environment_shared_keys_example =
    remove_environment_shared_keys alice 1 2 1 quiet alice_owns quiet-Unused refl (omega arith)
      (λ e. omega (arith, e)) ((λ e. refl), ((λ e. refl), tt))

abbrev two_targets : MimicBody
two_targets = record {
  name = "twice";
  env_id = 1;
  scheduled_start = none;
  duration = some 90;
  replays =
      record { name = "one"; target = record { db_name = "shop1"; host = "db2" } }
      ∷ record { name = "two"; target = record { db_name = "shop2"; host = "db2" } }
      ∷ [];
}

found_alice : select (λ u. 1 == u.id) quiet.tables.users ≡ alice ∷ []
unfolding select
found_alice = refl

create_mimic_template_lem_example :
    let r = create_mimic_template alice two_targets quiet in
    (m : Mimic) × (r.0 ≡ ok m)
    × (m.capture.id ≡ 2)
    × (replay_ids m.replays ≡ 2 ∷ 3 ∷ [])
    × (r.1.tables.captures ≡ small.captures ++ (asked_row alice two_targets 1 2 (some 90100) ∷ []))
    × (r.1.tables.databases
        ≡ small.databases
          ++ (record { id = 2; name = "shop1"; host = "db2" }
              ∷ record { id = 3; name = "shop2"; host = "db2" }
              ∷ []))
    × (r.1.tables.replays ≡ asked_replays alice none 2 2 2 two_targets.replays)
    × (r.1.sent ≡ launch_mimic 2 (2 ∷ 3 ∷ []) ∷ stop_at 90100 2 ∷ [])
create_mimic_template_lem_example =
    create_mimic_template_lem alice [] two_targets staging_environment quiet quiet-environment
      found_alice (omega arith, tt) tt (omega arith, tt)

-- ===== src/Tests/Service.antt =====
-- The service's theorems on the sample database.
use lil_bobby_tables_my_crt.Common.Tests.{
  ◌==◌, sym, ap, ◌∙◌, ◌≢◌, ◌≡◌, refl, ◌↔◌, ◌⊎◌, true, false, Option, none, some, List, [], ◌∷◌, map,
}
use lil_bobby_tables_my_crt.Common.Lists.{select, In}
use lil_bobby_tables_my_crt.Common.Exec.{ok, throw}
use mathlib.Core.Bool.{true≢false}
use lil_bobby_tables_my_crt.Service.EnvironmentRoutes.Deletion.{AllBut}
use lil_bobby_tables_my_crt.Service.CaptureRoutes.Deletion.{delete_route_lem}
use lil_bobby_tables_my_crt.Tests.Sample.{
  alice, bob, small, world, staging_environment, nightly_capture, small-capture, small-environment,
}
use lil_bobby_tables_my_crt.Service.CaptureRoutes.{
  environment_of?, stop_route, rename_route, delete_route,
}
use lil_bobby_tables_my_crt.Data.{running}
use lil_bobby_tables_my_crt.Service.Tables.{EnvironmentUser, is_id}
use lil_bobby_tables_my_crt.Service.Http.{World, Failure, stop_capture}
use lil_bobby_tables_my_crt.Service.InviteDao.{membership}
use lil_bobby_tables_my_crt.Service.InviteDao.Membership.{membership-is_member}
use lil_bobby_tables_my_crt.Service.InviteDao.Deadline.{Valid}
use lil_bobby_tables_my_crt.Service.InviteRoutes.Validity.Requests.{
  Request, invite, accept, wait, promote, withdraw, serve_all, serve_all-Valid,
}
use lil_bobby_tables_my_crt.Service.CaptureDao.{capture_of}
use lil_bobby_tables_my_crt.Service.CaptureRoutes.Rights.{
  Administers, only_administrators, stop_route_lem,
}
use lil_bobby_tables_my_crt.Service.ReplayRoutes.{
  Target, target_key, busy, no_mimic_replays_on_same_db,
}
use lil_bobby_tables_my_crt.Service.ReplayRoutes.Checks.{AllDifferent, no_mimic_replays_lem}

alice-is_admin : (membership alice staging_environment small).is_admin ≡ true
unfolding membership
alice-is_admin = refl

abbrev alice_administers : Administers alice 1 small
alice_administers = record {
  capture = nightly_capture;
  exists = small-capture;
  rights = record {
    environment = staging_environment;
    exists = small-environment;
    is_admin = alice-is_admin;
  };
}

bob-is_admin : (membership bob staging_environment small).is_admin ≡ false
unfolding membership select
bob-is_admin = refl

some_eq : {A : Type 0} {a b : A} → ◌≡◌ {A = Option A} (some a) (some b) → a ≡ b
some_eq p = cc

bob_no_admin : ¬ Administers bob 1 small
bob_no_admin a =
    let c = some_eq (sym small-capture ∙ a.exists) in
    let e =
      some_eq
        (sym small-environment ∙ (ap (λ x. environment_of? x.env_id small) c ∙ a.rights.exists)) in
    true≢false
      (sym a.rights.is_admin ∙ (ap (λ x. (membership bob x small).is_admin) (sym e) ∙ bob-is_admin))

stop_route_lem_example :
    let signalled : World = record world { sent = stop_capture 1 ∷ [] } in
    ((nightly_capture.status ≡ running)
      × (stop_route (λ id sent. true) alice 1 world ≡ (ok tt, signalled)))
    ⊎ ((nightly_capture.status ≢ running)
        × ((e : Failure) × (stop_route (λ id sent. true) alice 1 world ≡ (throw e, world))))
stop_route_lem_example = stop_route_lem (λ id sent. true) alice 1 world alice_administers

only_administrators_example :
    ((e : Failure) × (stop_route (λ id sent. true) bob 1 world ≡ (throw e, world)))
    × ((e : Failure) × (rename_route bob 1 "x" world ≡ (throw e, world)))
    × ((e : Failure) × (delete_route bob 1 true world ≡ (throw e, world)))
only_administrators_example =
    only_administrators (λ id sent. true) bob 1 "x" true world bob_no_admin

delete_route_lem_example :
    let r = delete_route alice 1 true world in
    (r.0 ≡ ok (some tt))
    × (capture_of 1 r.1.tables ≡ none)
    × AllBut (λ c. c.id == 1) small.captures r.1.tables.captures
    × AllBut (λ p. is_id p.capture_id 1) small.replays r.1.tables.replays
    × (record r.1.tables { captures = small.captures; replays = small.replays } ≡ small)
delete_route_lem_example = delete_route_lem alice 1 true world alice_administers

abbrev targets : List Target
targets = record { db_name = "shop"; host = "db1" } ∷ record { db_name = "shop"; host = "db2" } ∷ []

no_mimic_replays_lem_example :
    (((no_mimic_replays_on_same_db targets small).calls_next ≡ true)
      ↔ AllDifferent (map target_key targets))
    × ((target : Target)
        → In target (no_mimic_replays_on_same_db targets small).late_answers
          ↔ (In target targets × (busy small target ≡ true)))
no_mimic_replays_lem_example = no_mimic_replays_lem targets small

membership-is_member_example : ((membership bob staging_environment small).is_member ≡ true) ↔ (
    (staging_environment.owner_id ≡ some bob.id)
    ⊎ ((m : EnvironmentUser) × In m small.members
        × (m.user_id ≡ bob.id)
        × (m.environment_id ≡ staging_environment.id)
        × (m.accepted ≡ true)))
membership-is_member_example = membership-is_member bob staging_environment small

small-Valid : Valid small
small-Valid = record { distinct = tt; below = tt; in_time = tt }

abbrev day : List Request
day =
    invite "c0de" alice 1 "bob" true
    ∷ wait 50
    ∷ accept bob "c0de"
    ∷ promote bob 1
    ∷ withdraw bob 1
    ∷ []

serve_all-Valid_example : Valid (serve_all day world).tables
serve_all-Valid_example = serve_all-Valid day world small-Valid

-- ===== src/Service/Creation/Mimics/Made.antt =====
-- What a request for a mimic makes and launches.
use lil_bobby_tables_my_crt.Service.Creation.Mimics.Inserted.{
  make_db_reference_lem, database_known, make_replay_lem,
}
use lil_bobby_tables_my_crt.Common.Tests.{
  ℕ, suc, ◌<◌, ◌≡◌, refl, ap, true, some, List, [], ◌∷◌, map, ◌==◌,
}
use lil_bobby_tables_my_crt.Common.Lists.{select, any, All}
use lil_bobby_tables_my_crt.Common.Exec.{ok}
use lil_bobby_tables_my_crt.Common.Action.{◌>>=◌, pure}
use lil_bobby_tables_my_crt.Service.Tables.{User, DbReference, ReplayRow, Tables}
use lil_bobby_tables_my_crt.Service.Creation.Mimics.{
  mimic_replay, make_mimic_replay, make_mimic_replays, replay_ids, MimicBody, MimicReplay,
}
use lil_bobby_tables_my_crt.Service.CaptureDao.{Capture}
use lil_bobby_tables_my_crt.Service.Http.{required, World}
use lil_bobby_tables_my_crt.Service.ReplayDao.{
  Replay, make_replay, with_replay, new_replay_row, result_to_replay,
}
use lil_bobby_tables_my_crt.Service.Tables.Rows.{below-added}
use lil_bobby_tables_my_crt.Service.EnvironmentDao.Editing.{with_db_reference}

-- The ids from a counter on.
abbrev pub ids_from : ℕ → List MimicReplay → List ℕ
ids_from n [] = []
ids_from n (r ∷ rs) = n ∷ ids_from (suc n) rs

-- What the loop finds at each turn.
pub record Ready (user : User) (rest : List User) (capture_id : ℕ) (t : Tables) : Type 0 where
  pub found : select (λ u. user.id == u.id) t.users ≡ user ∷ rest
  pub captured : any (λ n. capture_id == n) (map (λ c. c.id) t.captures) ≡ true
  pub replays : All (λ r. r.id < t.next_replay) t.replays
  pub databases : All (λ d. d.id < t.next_database) t.databases

-- One turn: a database reference and a replay, each with the next id.
abbrev pub after_turn : User → MimicBody → Capture → MimicReplay → Tables → Tables
after_turn user b capture r t =
    let db : DbReference = record {
      id = t.next_database;
      name = r.target.db_name;
      host = r.target.host;
    } in
    with_replay (mimic_replay user b capture r db)
      (with_db_reference r.target.db_name r.target.host t)

abbrev made_replay : User → MimicBody → Capture → MimicReplay → Tables → Replay
made_replay user b capture r t =
    let db : DbReference = record {
      id = t.next_database;
      name = r.target.db_name;
      host = r.target.host;
    } in
    result_to_replay (some user.email)
      (new_replay_row (mimic_replay user b capture r db) t.next_replay)

made_one :
    (user : User) (rest : List User) (b : MimicBody) (capture : Capture) (r : MimicReplay)
    (w : World)
    → Ready user rest capture.id w.tables
    → let t = w.tables in
      let db : DbReference = record {
        id = t.next_database;
        name = r.target.db_name;
        host = r.target.host;
      } in
      let v : World = record w { tables = with_db_reference r.target.db_name r.target.host t } in
      make_replay (mimic_replay user b capture r db) v ≡ (
        ok (some (made_replay user b capture r t)),
        record w { tables = after_turn user b capture r t },
      )
unfolding mimic_replay with_db_reference
made_one user rest b capture r w g =
    let t = w.tables in
    let db : DbReference = record {
      id = t.next_database;
      name = r.target.db_name;
      host = r.target.host;
    } in
    let v : World = record w { tables = with_db_reference r.target.db_name r.target.host t } in
    make_replay_lem (mimic_replay user b capture r db) v user rest capture.id t.next_database refl
      refl refl g.found g.captured (database_known t.databases db) g.replays

turn_lem :
    (user : User) (rest : List User) (b : MimicBody) (capture : Capture) (r : MimicReplay)
    (w : World)
    → Ready user rest capture.id w.tables
    → make_mimic_replay user b capture r w ≡ (
      ok (made_replay user b capture r w.tables),
      record w { tables = after_turn user b capture r w.tables },
    )
unfolding make_mimic_replay ◌>>=◌ required
turn_lem user rest b capture r w g =
    let t = w.tables in
    let db : DbReference = record {
      id = t.next_database;
      name = r.target.db_name;
      host = r.target.host;
    } in
    let v : World = record w { tables = with_db_reference r.target.db_name r.target.host t } in
    let new = mimic_replay user b capture r db in
    rw (make_db_reference_lem r.target.db_name r.target.host w g.databases)
      (rw (made_one user rest b capture r w g) refl)

turn-Ready :
    (user : User) (rest : List User) (b : MimicBody) (capture : Capture) (r : MimicReplay)
    (t : Tables)
    → Ready user rest capture.id t
    → Ready user rest capture.id (after_turn user b capture r t)
unfolding with_replay with_db_reference mimic_replay
turn-Ready user rest b capture r t g =
    let db : DbReference = record {
      id = t.next_database;
      name = r.target.db_name;
      host = r.target.host;
    } in
    record {
      found = g.found;
      captured = g.captured;
      replays =
          below-added (λ (x : ReplayRow). x.id) t.replays
            (new_replay_row (mimic_replay user b capture r db) t.next_replay) g.replays;
      databases = below-added (λ (x : DbReference). x.id) t.databases db g.databases;
    }

-- The tables after the loop.
abbrev pub after_turns : User → MimicBody → Capture → List MimicReplay → Tables → Tables
after_turns user b capture [] t = t
after_turns user b capture (r ∷ rs) t =
    after_turns user b capture rs (after_turn user b capture r t)

abbrev pub made_replays : User → MimicBody → Capture → List MimicReplay → Tables → List Replay
made_replays user b capture [] t = []
made_replays user b capture (r ∷ rs) t =
    made_replay user b capture r t ∷ made_replays user b capture rs (after_turn user b capture r t)

pub make_mimic_replays_lem :
    (user : User) (rest : List User) (b : MimicBody) (capture : Capture) (rs : List MimicReplay)
    (w : World)
    → Ready user rest capture.id w.tables
    → make_mimic_replays user b capture rs w ≡ (
      ok (made_replays user b capture rs w.tables),
      record w { tables = after_turns user b capture rs w.tables },
    )
unfolding make_mimic_replays ◌>>=◌ pure
make_mimic_replays_lem user rest b capture [] w g = refl
make_mimic_replays_lem user rest b capture (r ∷ rs) w g =
    let next = turn-Ready user rest b capture r w.tables g in
    let v : World = record w { tables = after_turn user b capture r w.tables } in
    rw (turn_lem user rest b capture r w g)
      (rw (make_mimic_replays_lem user rest b capture rs v next) refl)

pub replay_ids-made_replays :
    (user : User) (b : MimicBody) (capture : Capture) (rs : List MimicReplay) (t : Tables)
    → replay_ids (made_replays user b capture rs t) ≡ ids_from t.next_replay rs
unfolding with_replay with_db_reference
replay_ids-made_replays user b capture [] t = refl
replay_ids-made_replays user b capture (r ∷ rs) t =
    ap (λ ids. t.next_replay ∷ ids)
      (replay_ids-made_replays user b capture rs (after_turn user b capture r t))

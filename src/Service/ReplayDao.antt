-- ===== src/Service/ReplayDao.antt =====
-- common/src/dao/replay-dao.ts: the queries on replays.
use lil_bobby_tables_my_crt.Common.Tests.{
  ℕ, suc, String, Bool, ◌&&◌, ◌||◌, Option, none, some, List, [], ◌∷◌, ◌++◌, map, str_eq, ltb, ◌==◌,
  if◌then◌else◌, codes,
}
use lil_bobby_tables_my_crt.Common.Lists.{length, select}
use lil_bobby_tables_my_crt.Common.Action.{◌>>=◌, ◌>>◌, pure, raise}
use lil_bobby_tables_my_crt.Data.{
  ChildProgramStatus, scheduled, started, starting, running, stopping, status_eq,
}
use lil_bobby_tables_my_crt.Service.Tables.{
  User, ReplayRow, DbReference, Tables, is_id, is_reference, join, update_where, delete_where,
  first_row,
}
use lil_bobby_tables_my_crt.Service.Http.{other_error, Handler, query, execute}
use lil_bobby_tables_my_crt.Service.CaptureDao.{null_if_empty, new_reason}

-- An `IReplay` as `resultToIReplay` builds it.
pub record Replay : Type 0 where
  pub id : ℕ
  pub capture_id : Option ℕ
  pub is_mimic : Bool
  pub db_id : Option ℕ
  pub name : String
  pub username : Option String
  pub start : Option ℕ
  pub end : Option ℕ
  pub status : ChildProgramStatus
  pub reason : Option String

abbrev pub result_to_replay : Option String → ReplayRow → Replay
result_to_replay email r = record {
  id = r.id;
  capture_id = r.capture_id;
  is_mimic = r.is_mimic;
  db_id = r.db_id;
  name = r.name;
  username = email;
  start = r.start;
  end = r.end;
  status = r.status;
  reason = r.reason;
}

abbrev pub joined_to_replay : ReplayRow × User → Replay
joined_to_replay (r, u) = result_to_replay (some u.email) r

-- `Replay AS r JOIN User AS u ON r.ownerId = u.id`
abbrev pub replays_with_owners : Tables → List (ReplayRow × User)
replays_with_owners t = join (λ r u. is_id r.owner_id u.id) t.replays t.users

unfoldable pub replays_of_owner : User → Tables → List Replay
replays_of_owner user t =
    map joined_to_replay (select (λ r. is_id r.0.owner_id user.id) (replays_with_owners t))

-- With a user, as the service calls it.
unfoldable pub get_all_replays : User → Handler (List Replay)
get_all_replays user = query (replays_of_owner user)

unfoldable pub replay_of : ℕ → Tables → Option Replay
replay_of id t = first_row joined_to_replay (select (λ r. r.0.id == id) (replays_with_owners t))

unfoldable pub get_replay : ℕ → Handler (Option Replay)
get_replay id = query (replay_of id)

unfoldable pub replays_for_capture : ℕ → Tables → List Replay
replays_for_capture capture_id t =
    map joined_to_replay (select (λ r. is_id r.0.capture_id capture_id) (replays_with_owners t))

unfoldable pub get_replays_for_capture : ℕ → Handler (List Replay)
get_replays_for_capture capture_id = query (replays_for_capture capture_id)

unfoldable pub replays_for_cap_by_name : ℕ → String → Tables → Option (List Replay)
replays_for_cap_by_name capture_id name t = null_if_empty (
    map joined_to_replay (
      select (λ r. is_id r.0.capture_id capture_id && str_eq r.0.name name)
        (replays_with_owners t)))

unfoldable pub get_replays_for_cap_by_name : ℕ → String → Handler (Option (List Replay))
get_replays_for_cap_by_name capture_id name = query (replays_for_cap_by_name capture_id name)

abbrev pub is_launched : ChildProgramStatus → Bool
is_launched s =
    status_eq s started || (status_eq s starting || (status_eq s running || status_eq s stopping))

abbrev pub is_active : ChildProgramStatus → Bool
is_active s = status_eq s scheduled || is_launched s

abbrev pub occupies : String → String → ReplayRow × DbReference → Bool
occupies name host r = is_active r.0.status && (str_eq r.1.name name && str_eq r.1.host host)

-- `COUNT(*) > 0`
unfoldable pub any_replays_on_db : String → String → Tables → Bool
any_replays_on_db name host t = ltb 0 (
    length (select (occupies name host) (join (λ r db. is_id r.db_id db.id) t.replays t.databases)))

unfoldable pub any_replays_currently_on_db : String → String → Handler Bool
any_replays_currently_on_db name host = query (any_replays_on_db name host)

unfoldable pub abandoned_replays : Tables → List Replay
abandoned_replays t = map (result_to_replay none) (select (λ r. is_launched r.status) t.replays)

unfoldable pub get_abandoned_replays : Handler (List Replay)
get_abandoned_replays = query abandoned_replays

-- What `makeReplay` inserts.
pub record NewReplay : Type 0 where
  pub name : String
  pub owner_id : Option ℕ
  pub is_mimic : Bool
  pub status : ChildProgramStatus
  pub capture_id : Option ℕ
  pub db_id : Option ℕ
  pub scheduled_start : Option ℕ

abbrev pub new_replay_row : NewReplay → ℕ → ReplayRow
new_replay_row r id = record {
  id = id;
  owner_id = r.owner_id;
  capture_id = r.capture_id;
  is_mimic = r.is_mimic;
  db_id = r.db_id;
  name = r.name;
  start = none;
  scheduled_start = r.scheduled_start;
  end = none;
  status = r.status;
  reason = none;
}

unfoldable pub with_replay : NewReplay → Tables → Tables
with_replay r t = record t {
  replays = t.replays ++ (new_replay_row r t.next_replay ∷ []);
  next_replay = suc t.next_replay;
}

abbrev pub replay_references : NewReplay → Tables → Bool
replay_references r t =
    is_reference r.owner_id (map (λ u. u.id) t.users)
    && (is_reference r.capture_id (map (λ c. c.id) t.captures)
        && is_reference r.db_id (map (λ d. d.id) t.databases))

-- The foreign keys reject an unknown owner, capture or database.
unfoldable pub make_replay : NewReplay → Handler (Option Replay)
unfolding execute get_replay
make_replay r w =
    if replay_references r w.tables
    then (execute (with_replay r) >> get_replay w.tables.next_replay) w
    else raise (other_error (codes "ER_NO_REFERENCED_ROW_2")) w

unfoldable pub without_replay : ℕ → Tables → Tables
without_replay id t = record t { replays = delete_where (λ r. r.id == id) t.replays }

unfoldable pub delete_found_replay : ℕ → Option Replay → Handler (Option (Unit {0}))
unfolding execute pure
delete_found_replay id none = pure none
delete_found_replay id (some r) = execute (without_replay id) >> pure (some tt)

unfoldable pub delete_replay : ℕ → Handler (Option (Unit {0}))
unfolding delete_found_replay get_replay
delete_replay id = get_replay id >>= delete_found_replay id

unfoldable pub nuke_replays : Handler (Unit {0})
nuke_replays = execute (λ t. record t { replays = []; next_replay = 1 })

unfoldable pub update_replays : ℕ → (ReplayRow → ReplayRow) → Tables → Tables
update_replays id change t = record t { replays = update_where (λ r. r.id == id) change t.replays }

unfoldable pub update_replay_status : ℕ → ChildProgramStatus → Option String → Handler (Unit {0})
update_replay_status id status reason =
    execute
      (update_replays id (λ r. record r { status = status; reason = new_reason reason r.reason }))

unfoldable pub update_replay_name : ℕ → String → Handler (Unit {0})
update_replay_name id name = execute (update_replays id (λ r. record r { name = name }))

unfoldable pub update_replay_start_time : ℕ → Handler (Unit {0})
unfolding execute
update_replay_start_time id w = execute (update_replays id (λ r. record r { start = some w.now })) w

unfoldable pub update_replay_end_time : ℕ → Handler (Unit {0})
unfolding execute
update_replay_end_time id w = execute (update_replays id (λ r. record r { end = some w.now })) w

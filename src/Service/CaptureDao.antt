-- ===== src/Service/CaptureDao.antt =====
-- common/src/dao/capture-dao.ts: the queries on captures.
pub mod Making
use lil_bobby_tables_my_crt.Common.Tests.{
  ℕ, suc, String, Bool, true, false, not, ◌&&◌, ◌||◌, Option, none, some, List, [], ◌∷◌, ◌++◌, map,
  str_eq, ltb, leb, ◌==◌, if◌then◌else◌, is_some, codes,
}
use lil_bobby_tables_my_crt.Common.Lists.{select}
use lil_bobby_tables_my_crt.Common.Action.{◌>>=◌, ◌>>◌, pure, raise}
use lil_bobby_tables_my_crt.Data.{
  ChildProgramStatus, scheduled, started, starting, running, status_eq,
}
use lil_bobby_tables_my_crt.Service.Tables.{
  User, CaptureRow, Tables, is_id, is_reference, join, update_where, delete_where, first_row,
}
use lil_bobby_tables_my_crt.Service.Http.{other_error, Handler, query, execute}

-- An `ICapture` as `rowToICapture` builds it: with no owner, and with the owner's email if the query
-- joins the users.
pub record Capture : Type 0 where
  pub id : ℕ
  pub name : String
  pub username : Option String
  pub start : Option ℕ
  pub is_mimic : Bool
  pub scheduled_start : Option ℕ
  pub scheduled_end : Option ℕ
  pub end : Option ℕ
  pub status : ChildProgramStatus
  pub env_id : Option ℕ
  pub reason : Option String

abbrev pub row_to_capture : Option String → CaptureRow → Capture
row_to_capture email c = record {
  id = c.id;
  name = c.name;
  username = email;
  start = c.start;
  is_mimic = c.is_mimic;
  scheduled_start = c.scheduled_start;
  scheduled_end = c.scheduled_end;
  end = c.end;
  status = c.status;
  env_id = c.env_id;
  reason = c.reason;
}

abbrev joined_to_capture : CaptureRow × User → Capture
joined_to_capture (c, u) = row_to_capture (some u.email) c

-- `Capture AS c JOIN User AS u on c.ownerId = u.id`
abbrev captures_with_owners : Tables → List (CaptureRow × User)
captures_with_owners t = join (λ c u. is_id c.owner_id u.id) t.captures t.users

unfoldable pub all_captures : Option User → Tables → List Capture
all_captures none t = map joined_to_capture (captures_with_owners t)
all_captures (some user) t =
    map joined_to_capture (select (λ r. is_id r.0.owner_id user.id) (captures_with_owners t))

unfoldable pub get_all_captures : Option User → Handler (List Capture)
get_all_captures user = query (all_captures user)

unfoldable pub capture_of : ℕ → Tables → Option Capture
capture_of id t = first_row joined_to_capture (select (λ r. r.0.id == id) (captures_with_owners t))

unfoldable pub get_capture : ℕ → Handler (Option Capture)
get_capture id = query (capture_of id)

unfoldable pub captures_for_environment : ℕ → Tables → List Capture
captures_for_environment env_id t =
    map joined_to_capture (select (λ r. is_id r.0.env_id env_id) (captures_with_owners t))

unfoldable pub get_captures_for_environment : ℕ → Handler (List Capture)
get_captures_for_environment env_id = query (captures_for_environment env_id)

-- `rows.length === 0 ? null : rows`
abbrev pub null_if_empty : {A : Type 0} → List A → Option (List A)
null_if_empty [] = none
null_if_empty (x ∷ xs) = some (x ∷ xs)

unfoldable pub captures_for_env_by_name : ℕ → String → Tables → Option (List Capture)
captures_for_env_by_name env_id name t = null_if_empty (
    map joined_to_capture
      (select (λ r. is_id r.0.env_id env_id && str_eq r.0.name name) (captures_with_owners t)))

unfoldable pub get_captures_for_env_by_name : ℕ → String → Handler (Option (List Capture))
get_captures_for_env_by_name env_id name = query (captures_for_env_by_name env_id name)

abbrev is_running : ChildProgramStatus → Bool
is_running s = status_eq s started || (status_eq s starting || status_eq s running)

unfoldable pub get_running_captures_for_env : ℕ → Handler (List Capture)
get_running_captures_for_env env_id = query (λ t.
    map (row_to_capture none)
      (select (λ c. is_id c.env_id env_id && is_running c.status) t.captures))

abbrev is_due : Bool → ℕ → Option ℕ → Bool
is_due future now none = false
is_due true now (some start) = ltb now start
is_due false now (some start) = leb start now

-- The query joins `on c.ownerId = c.id`.
unfoldable pub scheduled_captures : Bool → ℕ → Tables → List Capture
scheduled_captures future now t = map joined_to_capture (
    select (λ r. is_due future now r.0.scheduled_start && status_eq r.0.status scheduled)
      (join (λ c u. is_id c.owner_id c.id) t.captures t.users))

unfoldable pub get_scheduled_captures : Bool → ℕ → Handler (List Capture)
get_scheduled_captures future now = query (scheduled_captures future now)

-- What `makeCapture` inserts.
pub record NewCapture : Type 0 where
  pub name : String
  pub owner_id : Option ℕ
  pub is_mimic : Bool
  pub status : ChildProgramStatus
  pub env_id : Option ℕ
  pub scheduled_start : Option ℕ
  pub scheduled_end : Option ℕ

abbrev pub new_capture_row : NewCapture → ℕ → CaptureRow
new_capture_row c id = record {
  id = id;
  name = c.name;
  owner_id = c.owner_id;
  is_mimic = c.is_mimic;
  start = none;
  scheduled_start = c.scheduled_start;
  scheduled_end = c.scheduled_end;
  end = none;
  status = c.status;
  reason = none;
  env_id = c.env_id;
}

unfoldable pub with_capture : NewCapture → Tables → Tables
with_capture c t = record t {
  captures = t.captures ++ (new_capture_row c t.next_capture ∷ []);
  next_capture = suc t.next_capture;
}

-- The foreign key rejects an owner that is not a user.
unfoldable pub make_capture : NewCapture → Handler (Option Capture)
unfolding execute get_capture
make_capture c w =
    if is_reference c.owner_id (map (λ u. u.id) w.tables.users)
    then (execute (with_capture c) >> get_capture w.tables.next_capture) w
    else raise (other_error (codes "ER_NO_REFERENCED_ROW_2")) w

-- The foreign key deletes the capture's replays with it.
unfoldable pub without_capture : ℕ → Tables → Tables
without_capture id t = record t {
  captures = delete_where (λ c. c.id == id) t.captures;
  replays = delete_where (λ r. is_id r.capture_id id) t.replays;
}

-- The result of the deletion, if there is one.
unfoldable pub delete_found : ℕ → Option Capture → Handler (Option (Unit {0}))
unfolding execute pure
delete_found id none = pure none
delete_found id (some c) = execute (without_capture id) >> pure (some tt)

unfoldable pub delete_capture : ℕ → Handler (Option (Unit {0}))
unfolding delete_found get_capture
delete_capture id = get_capture id >>= delete_found id

unfoldable pub nuke_captures : Handler (Unit {0})
nuke_captures = execute (λ t. record t {
  captures = [];
  replays = select (λ r. not (is_some r.capture_id)) t.replays;
  next_capture = 1;
})

unfoldable pub update_captures : ℕ → (CaptureRow → CaptureRow) → Tables → Tables
update_captures id change t = record t {
  captures = update_where (λ c. c.id == id) change t.captures;
}

-- `if (reason)`: an empty reason is not written.
abbrev pub new_reason : Option String → Option String → Option String
new_reason none old = old
new_reason (some reason) old = if str_eq reason "" then old else some reason

unfoldable pub update_capture_status : ℕ → ChildProgramStatus → Option String → Handler (Unit {0})
update_capture_status id status reason =
    execute
      (update_captures id (λ c. record c { status = status; reason = new_reason reason c.reason }))

unfoldable pub update_capture_start_time : ℕ → Handler (Unit {0})
unfolding execute
update_capture_start_time id w =
    execute (update_captures id (λ c. record c { start = some w.now })) w

unfoldable pub update_capture_end_time : ℕ → Handler (Unit {0})
unfolding execute
update_capture_end_time id w = execute (update_captures id (λ c. record c { end = some w.now })) w

unfoldable pub update_capture_name : ℕ → String → Handler (Unit {0})
update_capture_name id name = execute (update_captures id (λ c. record c { name = name }))

-- ===== src/Service/Creation/Mimics/Asked.antt =====
-- What a request for a mimic asks for, in its own terms, and the rows that its replays become (mimic-creator.ts).
use lil_bobby_tables_my_crt.Common.Tests.{
  ℕ, suc, ◌≡◌, refl, sym, ap, ◌∙◌, true, Option, none, some, List, [], ◌∷◌, ◌++◌,
}
use lil_bobby_tables_my_crt.Common.Lists.{append_nil, append_assoc}
use lil_bobby_tables_my_crt.Data.{ChildProgramStatus, scheduled, started}
use lil_bobby_tables_my_crt.Service.Tables.{User, CaptureRow, ReplayRow, DbReference, Tables}
use lil_bobby_tables_my_crt.Service.Http.{Message, launch_mimic, launch_mimic_at}
use lil_bobby_tables_my_crt.Service.CaptureDao.{Capture, new_capture_row}
use lil_bobby_tables_my_crt.Service.ReplayDao.{with_replay}
use lil_bobby_tables_my_crt.Service.EnvironmentDao.{Environment}
use lil_bobby_tables_my_crt.Service.EnvironmentDao.Editing.{with_db_reference}
use lil_bobby_tables_my_crt.Service.Creation.Mimics.{
  MimicBody, MimicReplay, mimic_capture, mimic_replay, mimic_status,
}
use lil_bobby_tables_my_crt.Service.Creation.Mimics.Made.{after_turn, after_turns}

abbrev pub asked_status : Option ℕ → ChildProgramStatus
asked_status none = started
asked_status (some time) = scheduled

abbrev pub asked_launch : Option ℕ → ℕ → List ℕ → Message
asked_launch none capture_id replay_ids = launch_mimic capture_id replay_ids
asked_launch (some time) capture_id replay_ids = launch_mimic_at time capture_id replay_ids

abbrev pub asked_row : User → MimicBody → ℕ → ℕ → Option ℕ → CaptureRow
asked_row user b env_id id end_time = record {
  id = id;
  name = b.name;
  owner_id = some user.id;
  is_mimic = true;
  start = none;
  scheduled_start = b.scheduled_start;
  scheduled_end = end_time;
  end = none;
  status = asked_status b.scheduled_start;
  reason = none;
  env_id = some env_id;
}

-- The references to the databases of the targets, with the ids from a counter on.
abbrev pub asked_databases : ℕ → List MimicReplay → List DbReference
asked_databases n [] = []
asked_databases n (r ∷ rs) =
    record { id = n; name = r.target.db_name; host = r.target.host } ∷ asked_databases (suc n) rs

-- The replays of the targets, with their ids and those of their databases from two counters on.
abbrev pub asked_replays : User → Option ℕ → ℕ → ℕ → ℕ → List MimicReplay → List ReplayRow
asked_replays user start capture_id n d [] = []
asked_replays user start capture_id n d (r ∷ rs) =
    record {
      id = n;
      owner_id = some user.id;
      capture_id = some capture_id;
      is_mimic = true;
      db_id = some d;
      name = r.name;
      start = none;
      scheduled_start = none;
      end = none;
      status = asked_status start;
      reason = none;
    }
    ∷ asked_replays user start capture_id (suc n) (suc d) rs

status_lem : (o : Option ℕ) → mimic_status o ≡ asked_status o
status_lem none = refl
status_lem (some time) = refl

pub row_lem :
    (user : User) (b : MimicBody) (e : Environment) (id : ℕ) (end_time : Option ℕ)
    → new_capture_row (mimic_capture user b e end_time) id ≡ asked_row user b e.id id end_time
unfolding mimic_capture
row_lem user b e id end_time = rw (status_lem b.scheduled_start) refl

pub databases-after_turns :
    (user : User) (b : MimicBody) (c : Capture) (rs : List MimicReplay) (t : Tables)
    → (after_turns user b c rs t).databases ≡ t.databases ++ asked_databases t.next_database rs
unfolding with_replay with_db_reference
databases-after_turns user b c [] t = sym (append_nil t.databases)
databases-after_turns user b c (r ∷ rs) t =
    databases-after_turns user b c rs (after_turn user b c r t) ∙ append_assoc t.databases _ _

pub replays-after_turns :
    (user : User) (b : MimicBody) (c : Capture) (rs : List MimicReplay) (t : Tables)
    → (after_turns user b c rs t).replays
      ≡ t.replays ++ asked_replays user b.scheduled_start c.id t.next_replay t.next_database rs
unfolding with_replay with_db_reference mimic_replay
replays-after_turns user b c [] t = sym (append_nil t.replays)
replays-after_turns user b c (r ∷ rs) t =
    replays-after_turns user b c rs (after_turn user b c r t)
    ∙ (append_assoc t.replays _ _
        ∙ ap
            (λ (s : ChildProgramStatus).
              let row : ReplayRow = record {
                id = t.next_replay;
                owner_id = some user.id;
                capture_id = some c.id;
                is_mimic = true;
                db_id = some t.next_database;
                name = r.name;
                start = none;
                scheduled_start = none;
                end = none;
                status = s;
                reason = none;
              } in
              t.replays
              ++ (row
                  ∷ asked_replays user b.scheduled_start c.id (suc t.next_replay)
                      (suc t.next_database) rs))
            (status_lem b.scheduled_start))

pub captures-after_turns :
    (user : User) (b : MimicBody) (c : Capture) (rs : List MimicReplay) (t : Tables)
    → (after_turns user b c rs t).captures ≡ t.captures
unfolding with_replay with_db_reference
captures-after_turns user b c [] t = refl
captures-after_turns user b c (r ∷ rs) t =
    captures-after_turns user b c rs (after_turn user b c r t)

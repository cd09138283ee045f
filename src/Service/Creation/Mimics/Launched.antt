-- ===== src/Service/Creation/Mimics/Launched.antt =====
-- A mimic is launched once, with all its replays.
use lil_bobby_tables_my_crt.Common.Tests.{
  ◌∙◌, eq_self, ℕ, ◌<◌, ◌≡◌, refl, sym, ap, inl, inr, true, Option, none, some, List, [], ◌∷◌, ◌++◌,
  map, ◌==◌, Bool-cases,
}
use lil_bobby_tables_my_crt.Common.Lists.{select, any, All, append_nil}
use lil_bobby_tables_my_crt.Common.Exec.{Result, ok}
use lil_bobby_tables_my_crt.Common.Action.{◌>>=◌, pure}
use lil_bobby_tables_my_crt.Service.Creation.Asked.{
  asked_start, asked_end, asked_stops, time_or_lem, duration_end_lem, stop_messages_lem,
  stop_messages,
}
use lil_bobby_tables_my_crt.Service.Creation.Mimics.Asked.{
  asked_launch, asked_row, asked_databases, asked_replays, row_lem, databases-after_turns,
  replays-after_turns, captures-after_turns,
}
use lil_bobby_tables_my_crt.Service.EnvironmentDao.{get_environment, Environment, environment_of}
use lil_bobby_tables_my_crt.Service.Http.{query, required, World, Failure, send}
use lil_bobby_tables_my_crt.Service.CaptureDao.Making.{make_capture_lem}
use lil_bobby_tables_my_crt.Service.Creation.Mimics.Made.{
  make_mimic_replays_lem, replay_ids-made_replays, Ready, ids_from, after_turns, made_replays,
}
use lil_bobby_tables_my_crt.Service.Tables.{User, CaptureRow, Tables}
use lil_bobby_tables_my_crt.Service.CaptureDao.{
  Capture, with_capture, new_capture_row, row_to_capture,
}
use lil_bobby_tables_my_crt.Service.Creation.{time_or, duration_end}
use lil_bobby_tables_my_crt.Service.Creation.Mimics.{
  MimicBody, Mimic, mimic_capture, replay_ids, mimic_launch, mimic_stop, create_mimic_template,
}

abbrev pub end_time_of : MimicBody → ℕ → Option ℕ
end_time_of b now = duration_end (time_or b.scheduled_start now) b.duration

-- The capture of the mimic.
abbrev pub mimic_made_capture : User → MimicBody → Environment → World → Capture
mimic_made_capture user b e w =
    row_to_capture (some user.email)
      (new_capture_row (mimic_capture user b e (end_time_of b w.now)) w.tables.next_capture)

abbrev pub with_mimic_capture : User → MimicBody → Environment → World → Tables
with_mimic_capture user b e w = with_capture (mimic_capture user b e (end_time_of b w.now)) w.tables

abbrev done_at : World → Result Failure (Unit {0}) × World
done_at w = (ok tt, w)

stop_sent :
    (end_time : Option ℕ) (id : ℕ) (w : World)
    → mimic_stop end_time id w ≡ (ok tt, record w { sent = w.sent ++ stop_messages end_time id })
unfolding send pure
stop_sent none id w =
    ap (λ l. let v : World = record w { sent = l } in done_at v) (sym (append_nil w.sent))
stop_sent (some time) id w = refl

capture_known :
    (rows : List CaptureRow) (row : CaptureRow)
    → any (λ n. row.id == n) (map (λ c. c.id) (rows ++ (row ∷ []))) ≡ true
unfolding any
capture_known [] row = rw (eq_self row.id) refl
capture_known (c ∷ rows) row = elim (Bool-cases (row.id == c.id)) [
  | inl e ↦ rw e refl
  | inr e ↦ rw e (capture_known rows row)
]

captured-Ready :
    (user : User) (rest : List User) (b : MimicBody) (e : Environment) (w : World)
    → select (λ u. user.id == u.id) w.tables.users ≡ user ∷ rest
    → All (λ r. r.id < w.tables.next_replay) w.tables.replays
    → All (λ d. d.id < w.tables.next_database) w.tables.databases
    → Ready user rest (mimic_made_capture user b e w).id (with_mimic_capture user b e w)
unfolding with_capture
captured-Ready user rest b e w found replays databases = record {
  found = found;
  captured =
      capture_known w.tables.captures
        (new_capture_row (mimic_capture user b e (end_time_of b w.now)) w.tables.next_capture);
  replays = replays;
  databases = databases;
}

owned :
    (user : User) (b : MimicBody) (e : Environment) (end_time : Option ℕ)
    → (mimic_capture user b e end_time).owner_id ≡ some user.id
unfolding mimic_capture
owned user b e end_time = refl

create_mimic_template_eq :
    (user : User) (rest : List User) (b : MimicBody) (e : Environment) (w : World)
    → environment_of b.env_id w.tables ≡ some e
    → select (λ u. user.id == u.id) w.tables.users ≡ user ∷ rest
    → All (λ r. r.id < w.tables.next_capture) w.tables.captures
    → All (λ r. r.id < w.tables.next_replay) w.tables.replays
    → All (λ d. d.id < w.tables.next_database) w.tables.databases
    → let c = mimic_made_capture user b e w in
      let t = with_mimic_capture user b e w in
      let m : Mimic = record { capture = c; replays = made_replays user b c b.replays t } in
      (create_mimic_template user b w ≡ (
        ok m,
        record w {
          tables = after_turns user b c b.replays t;
          sent =
              (w.sent ++ (mimic_launch b.scheduled_start m ∷ []))
              ++ stop_messages (end_time_of b w.now) c.id;
        },
      ))
      × (replay_ids m.replays ≡ ids_from w.tables.next_replay b.replays)
unfolding create_mimic_template ◌>>=◌ required get_environment query send with_capture
create_mimic_template_eq user rest b e w exists found captures replays databases =
    let c = mimic_made_capture user b e w in
    let t = with_mimic_capture user b e w in
    let end_time = end_time_of b w.now in
    let v : World = record w { tables = t } in
    let m : Mimic = record { capture = c; replays = made_replays user b c b.replays t } in
    let launched : World = record w {
      tables = after_turns user b c b.replays t;
      sent = w.sent ++ (mimic_launch b.scheduled_start m ∷ []);
    } in
    (
      rw exists (
          rw
            (make_capture_lem (mimic_capture user b e end_time) w user rest
              (owned user b e end_time) found captures)
            (rw
              (make_mimic_replays_lem user rest b c b.replays v
                (captured-Ready user rest b e w found replays databases))
              (rw (stop_sent end_time c.id launched) refl))),
      replay_ids-made_replays user b c b.replays t,
    )

launched_as :
    (start : Option ℕ) (m : Mimic) (id : ℕ) (ids : List ℕ)
    → m.capture.id ≡ id
    → replay_ids m.replays ≡ ids
    → mimic_launch start m ≡ asked_launch start id ids
launched_as none m id ids e f = rw (e, f) refl
launched_as (some time) m id ids e f = rw (e, f) refl

-- A user of the table asks for a mimic in an existing environment, and the ids of the captures, replays and
-- database references are below their counters. Then a capture is made, and for each target in order a
-- reference to its database and a replay, with the next ids; the mimic is launched exactly once with
-- the capture and all these replays, at once or at its start; and with a duration it is stopped that
-- many seconds after its start, or after now if no start is given. The
-- rows are spelled out: each replay is of the capture and of its own database. Nothing else is sent.
pub create_mimic_template_lem :
    (user : User) (rest : List User) (b : MimicBody) (e : Environment) (w : World)
    → environment_of b.env_id w.tables ≡ some e
    → select (λ u. user.id == u.id) w.tables.users ≡ user ∷ rest
    → All (λ r. r.id < w.tables.next_capture) w.tables.captures
    → All (λ r. r.id < w.tables.next_replay) w.tables.replays
    → All (λ d. d.id < w.tables.next_database) w.tables.databases
    → let r = create_mimic_template user b w in
      let id = w.tables.next_capture in
      let n = w.tables.next_replay in
      let d = w.tables.next_database in
      let start = asked_start b.scheduled_start w.now in
      (m : Mimic) × (r.0 ≡ ok m)
      × (m.capture.id ≡ id)
      × (replay_ids m.replays ≡ ids_from n b.replays)
      × (r.1.tables.captures
          ≡ w.tables.captures ++ (asked_row user b e.id id (asked_end b.duration start) ∷ []))
      × (r.1.tables.databases ≡ w.tables.databases ++ asked_databases d b.replays)
      × (r.1.tables.replays
          ≡ w.tables.replays ++ asked_replays user b.scheduled_start id n d b.replays)
      × (r.1.sent
          ≡ (w.sent ++ (asked_launch b.scheduled_start id (ids_from n b.replays) ∷ []))
            ++ asked_stops b.duration start id)
unfolding with_capture
create_mimic_template_lem user rest b e w exists found captures replays databases =
    let c = mimic_made_capture user b e w in
    let t = with_mimic_capture user b e w in
    let m : Mimic = record { capture = c; replays = made_replays user b c b.replays t } in
    let id = w.tables.next_capture in
    let start = asked_start b.scheduled_start w.now in
    let all = create_mimic_template_eq user rest b e w exists found captures replays databases in
    let ends : end_time_of b w.now ≡ asked_end b.duration start =
      ap (λ s. duration_end s b.duration) (time_or_lem b.scheduled_start w.now)
      ∙ duration_end_lem b.duration start in
    (
      m,
      ap (λ r. r.0) all.0,
      refl,
      all.1,
      ap (λ r. r.1.tables.captures) all.0
          ∙ (captures-after_turns user b c b.replays t
              ∙ ap (λ row. w.tables.captures ++ (row ∷ []))
                  (row_lem user b e id (end_time_of b w.now) ∙ ap (asked_row user b e.id id) ends)),
      ap (λ r. r.1.tables.databases) all.0 ∙ databases-after_turns user b c b.replays t,
      ap (λ r. r.1.tables.replays) all.0 ∙ replays-after_turns user b c b.replays t,
      ap (λ r. r.1.sent) all.0
          ∙ (ap (λ l. (w.sent ++ (l ∷ [])) ++ stop_messages (end_time_of b w.now) id)
                (launched_as b.scheduled_start m id _ refl all.1)
              ∙ ap
                  (λ l.
                    (w.sent
                      ++ (asked_launch b.scheduled_start id
                            (ids_from w.tables.next_replay b.replays)
                          ∷ []))
                    ++ l)
                  (ap (λ o. stop_messages o id) ends ∙ stop_messages_lem b.duration start id)),
    )

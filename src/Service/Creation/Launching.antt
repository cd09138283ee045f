-- ===== src/Service/Creation/Launching.antt =====
-- What a request for a capture makes and launches.
use lil_bobby_tables_my_crt.Service.Creation.Asked.{
  stop_messages, asked_start, asked_end, asked_stops, asked_launch, asked_row, time_or_lem,
  duration_end_lem, stop_messages_lem,
}
use lil_bobby_tables_my_crt.Common.Tests.{
  suc, ◌∙◌, Bool, true, if◌then◌else◌, Bool-cases, inl, inr, sym, ap, ℕ, ◌<◌, ◌≡◌, refl, false, not,
  ◌&&◌, Option, none, some, List, [], ◌∷◌, ◌++◌, ◌==◌, is_some,
}
use lil_bobby_tables_my_crt.Common.Lists.{append_nil, select, All}
use lil_bobby_tables_my_crt.Common.Exec.{Result, ok}
use lil_bobby_tables_my_crt.Common.Action.{◌>>=◌}
use lil_bobby_tables_my_crt.Service.Http.{launch_at, launch_capture, query, Failure, Message, World}
use lil_bobby_tables_my_crt.Service.Tables.{CaptureRow, User}
use lil_bobby_tables_my_crt.Service.EnvironmentDao.{Environment, environment_of}
use lil_bobby_tables_my_crt.Service.CaptureDao.{
  Capture, with_capture, row_to_capture, new_capture_row,
}
use lil_bobby_tables_my_crt.Service.CaptureDao.Making.{make_capture_lem}
use lil_bobby_tables_my_crt.Service.Creation.{
  CaptureBody, CaptureCreator, time_or, duration_end, too_short, capture_template, launch_message,
  create_capture, check_duration,
}

abbrev pub creator_of : CaptureBody → ℕ → CaptureCreator
creator_of b now =
    let input_time = time_or b.scheduled_start now in
    record { input_time = input_time; end_time = duration_end input_time b.duration }

abbrev pub made_capture : User → CaptureBody → Environment → World → Capture
made_capture user b e w =
    row_to_capture (some user.email)
      (new_capture_row (capture_template user b e (creator_of b w.now)) w.tables.next_capture)

owned :
    (user : User) (b : CaptureBody) (e : Environment) (creator : CaptureCreator)
    → (capture_template user b e creator).owner_id ≡ some user.id
unfolding capture_template
owned user b e creator = refl

abbrev done_at : World → Result Failure (Unit {0}) × World
done_at w = (ok tt, w)

duration_sent :
    (input_time : ℕ) (end_time : Option ℕ) (c : Capture) (w : World)
    → check_duration (record { input_time = input_time; end_time = end_time }) c w
      ≡ (ok tt, record w { sent = w.sent ++ stop_messages end_time c.id })
unfolding check_duration
duration_sent input_time none c w =
    ap (λ l. let v : World = record w { sent = l } in done_at v) (sym (append_nil w.sent))
duration_sent input_time (some time) c w = refl

create_capture_eq :
    (user : User) (b : CaptureBody) (w : World) (e : Environment) (rest : List User)
    → too_short b.duration ≡ false
    → b.is_scheduled && not (is_some b.scheduled_start) ≡ false
    → environment_of b.env_id w.tables ≡ some e
    → select (λ u. user.id == u.id) w.tables.users ≡ user ∷ rest
    → All (λ r. r.id < w.tables.next_capture) w.tables.captures
    → let creator = creator_of b w.now in
      let c = made_capture user b e w in
      create_capture user b w ≡ (
        ok c,
        record w {
          tables = with_capture (capture_template user b e creator) w.tables;
          sent =
              (w.sent ++ (launch_message b creator c ∷ [])) ++ stop_messages creator.end_time c.id;
        },
      )
unfolding create_capture ◌>>=◌ query
create_capture_eq user b w e rest long start exists found below =
    let creator = creator_of b w.now in
    rw long (
      rw exists (
        rw start (
          rw
            (make_capture_lem (capture_template user b e creator) w user rest
              (owned user b e creator) found below)
            (rw
              (duration_sent creator.input_time creator.end_time (made_capture user b e w)
                (record w {
                  tables = with_capture (capture_template user b e creator) w.tables;
                  sent = w.sent ++ (launch_message b creator (made_capture user b e w) ∷ []);
                }))
              refl))))

launched_as :
    (s : Bool) (start id : ℕ)
    → (if s then launch_at start id else launch_capture id) ≡ asked_launch s start id
launched_as true start id = refl
launched_as false start id = refl

row_lem :
    (user : User) (b : CaptureBody) (e : Environment) (id start : ℕ)
    → new_capture_row
        (capture_template user b e
          (record { input_time = start; end_time = asked_end b.duration start }))
        id
      ≡ asked_row user b e.id id start
unfolding capture_template
row_lem user b e id start = elim (Bool-cases b.is_scheduled) [
  | inl p ↦ rw p refl
  | inr p ↦ rw p refl
]

abbrev made_at : User → World → CaptureRow → Message → List Message → Result Failure Capture × World
made_at user w row launch stops = (
  ok (row_to_capture (some user.email) row),
  record w {
    tables = record w.tables {
      captures = w.tables.captures ++ (row ∷ []);
      next_capture = suc w.tables.next_capture;
    };
    sent = (w.sent ++ (launch ∷ [])) ++ stops;
  },
)

-- A user of the table asks for a capture of an existing environment, with no duration under a
-- minute and with a start if it is scheduled, and the ids of the captures are below the counter.
-- Then the user gets it, member of the environment or not. It belongs to the user, with the next id, is
-- started, or scheduled if that is asked for, and is the only new row; it is launched
-- at once, or at its start if it is scheduled, exactly once; and with a duration it is stopped that
-- many seconds after its start, or after now if no start is given, exactly once. Nothing else is
-- sent or changed.
pub create_capture_lem :
    (user : User) (b : CaptureBody) (w : World) (e : Environment) (rest : List User)
    → too_short b.duration ≡ false
    → b.is_scheduled && not (is_some b.scheduled_start) ≡ false
    → environment_of b.env_id w.tables ≡ some e
    → select (λ u. user.id == u.id) w.tables.users ≡ user ∷ rest
    → All (λ r. r.id < w.tables.next_capture) w.tables.captures
    → let id = w.tables.next_capture in
      let start = asked_start b.scheduled_start w.now in
      let row = asked_row user b e.id id start in
      create_capture user b w ≡ (
        ok (row_to_capture (some user.email) row),
        record w {
          tables = record w.tables {
            captures = w.tables.captures ++ (row ∷ []);
            next_capture = suc id;
          };
          sent =
              (w.sent ++ (asked_launch b.is_scheduled start id ∷ []))
              ++ asked_stops b.duration start id;
        },
      )
unfolding with_capture capture_template
create_capture_lem user b w e rest long start exists found below =
    let id = w.tables.next_capture in
    let begin = asked_start b.scheduled_start w.now in
    let creator : CaptureCreator = record {
      input_time = begin;
      end_time = asked_end b.duration begin;
    } in
    let same : creator_of b w.now ≡ creator =
      ap
        (λ (s : ℕ).
          let c : CaptureCreator = record {
            input_time = s;
            end_time = duration_end s b.duration;
          } in
          c)
        (time_or_lem b.scheduled_start w.now)
      ∙ ap
          (λ (o : Option ℕ).
            let c : CaptureCreator = record { input_time = begin; end_time = o } in c)
          (duration_end_lem b.duration begin) in
    create_capture_eq user b w e rest long start exists found below
    ∙ (ap
          (λ c.
            made_at user w (new_capture_row (capture_template user b e c) id)
              (if b.is_scheduled then launch_at c.input_time id else launch_capture id)
              (stop_messages c.end_time id))
          same
        ∙ (ap
              (λ r.
                made_at user w r (if b.is_scheduled then launch_at begin id else launch_capture id)
                  (stop_messages creator.end_time id))
              (row_lem user b e id begin)
            ∙ (ap
                  (λ l.
                    made_at user w (asked_row user b e.id id begin) l
                      (stop_messages creator.end_time id))
                  (launched_as b.is_scheduled begin id)
                ∙ ap
                    (made_at user w (asked_row user b e.id id begin)
                      (asked_launch b.is_scheduled begin id))
                    (stop_messages_lem b.duration begin id))))

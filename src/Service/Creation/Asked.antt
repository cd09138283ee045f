-- ===== src/Service/Creation/Asked.antt =====
-- What a request for a capture asks for, in its own terms (capture-creator.ts).
use lil_bobby_tables_my_crt.Common.Tests.{
  zero, suc, ◌+◌, ◌*◌, arith, Bool, true, ap, ℕ, ◌≡◌, refl, false, Option, none, some, List, [],
  ◌∷◌,
}
use lil_bobby_tables_my_crt.Data.{ChildProgramStatus, scheduled, started}
use lil_bobby_tables_my_crt.Service.Http.{launch_at, launch_capture, Message, stop_at}
use lil_bobby_tables_my_crt.Service.Tables.{CaptureRow, User}
use lil_bobby_tables_my_crt.Service.Creation.{CaptureBody, time_or, duration_end}

abbrev pub stop_messages : Option ℕ → ℕ → List Message
stop_messages none id = []
stop_messages (some time) id = stop_at time id ∷ []

-- What a request asks for, in its own terms. It starts at the time that it gives, or now.
abbrev pub asked_start : Option ℕ → ℕ → ℕ
asked_start none now = now
asked_start (some time) now = time

-- A duration of some seconds ends that much later; a duration of 0 counts as none.
abbrev pub asked_end : Option ℕ → ℕ → Option ℕ
asked_end none start = none
asked_end (some zero) start = none
asked_end (some (suc n)) start = some (start + 1000 * suc n)

abbrev pub asked_stops : Option ℕ → ℕ → ℕ → List Message
asked_stops none start id = []
asked_stops (some zero) start id = []
asked_stops (some (suc n)) start id = stop_at (start + 1000 * suc n) id ∷ []

abbrev pub asked_launch : Bool → ℕ → ℕ → Message
asked_launch true start id = launch_at start id
asked_launch false start id = launch_capture id

abbrev pub asked_status : Bool → ChildProgramStatus
asked_status true = scheduled
asked_status false = started

abbrev pub asked_time : Bool → ℕ → Option ℕ
asked_time true start = some start
asked_time false start = none

abbrev pub asked_row : User → CaptureBody → ℕ → ℕ → ℕ → CaptureRow
asked_row user b env_id id start = record {
  id = id;
  name = b.name;
  owner_id = some user.id;
  is_mimic = false;
  start = none;
  scheduled_start = asked_time b.is_scheduled start;
  scheduled_end = asked_end b.duration start;
  end = none;
  status = asked_status b.is_scheduled;
  reason = none;
  env_id = some env_id;
}

pub time_or_lem : (o : Option ℕ) (now : ℕ) → time_or o now ≡ asked_start o now
time_or_lem none now = refl
time_or_lem (some time) now = refl

pub duration_end_lem : (o : Option ℕ) (start : ℕ) → duration_end start o ≡ asked_end o start
duration_end_lem none start = refl
duration_end_lem (some zero) start = refl
duration_end_lem (some (suc n)) start =
    let same : start + suc n * 1000 ≡ start + 1000 * suc n = omega arith in
    ap (λ (k : ℕ). some k) same

pub stop_messages_lem :
    (o : Option ℕ) (start id : ℕ) → stop_messages (asked_end o start) id ≡ asked_stops o start id
stop_messages_lem none start id = refl
stop_messages_lem (some zero) start id = refl
stop_messages_lem (some (suc n)) start id = refl

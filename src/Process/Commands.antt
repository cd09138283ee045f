-- ===== src/Process/Commands.antt =====
-- capture/src/mimic/replay-manager.ts: `processCommand`, `processWorkloadFragment` and
-- `finishAllCommands`. Times are milliseconds since the epoch; `query_ok` says whether the query of a
-- command succeeds on the target database.
use lil_bobby_tables_my_crt.Common.Tests.{
  ℕ, ◌+◌, ◌-◌, ◌*◌, ◌≤◌, ◌≡◌, refl, ◌↔◌, ◌⊎◌, inl, inr, Bool, true, false, not, List, [], ◌∷◌, ◌++◌,
  map, arith, ltb, if◌then◌else◌, Bool-cases,
}
use lil_bobby_tables_my_crt.Common.Lists.{any, All}

-- A promise may also never be settled.
pub data Settled : Type 0 where
  resolved rejected pending : Settled

-- A command as the timer gets it, and what becomes of its promise.
pub record Scheduled : Type 0 where
  pub delay : ℕ
  pub outcome : Settled

-- What a mimic's replay knows when a command arrives.
pub record Clock : Type 0 where
  pub mock : Bool
  pub capture_start : ℕ
  pub start_time : ℕ
  pub now : ℕ

-- The seven hours that the log's times are ahead, outside mock mode, added to the start.
abbrev pub shifted_start : Clock → ℕ
shifted_start c = if c.mock then c.capture_start else c.capture_start + 7 * 60 * 60 * 1000

-- The first of `reject` and `resolve` counts. The timer's callback that fails settles nothing.
unfoldable pub settle : Clock → Bool → ℕ → Settled
settle c query_ok event_time =
    if ltb event_time (shifted_start c)
    then rejected
    else (if ltb c.now c.start_time then rejected else (if query_ok then resolved else pending))

-- `delta = queryOffset - nowReplayOffset`, and 0 if that is negative
unfoldable pub process_command : Clock → Bool → ℕ → Scheduled
process_command c query_ok event_time = record {
  delay = (event_time + c.start_time) - (shifted_start c + c.now);
  outcome = settle c query_ok event_time;
}

-- A command's time, and whether its query succeeds.
abbrev pub Timed : Type 0
Timed = ℕ × Bool

-- `commandPromises.push(processCommand(...))` for each command; the source reads the clock
-- once for each, here it stands still for the commands of one fragment.
unfoldable pub process_workload_fragment : Clock → List Timed → List Scheduled → List Scheduled
process_workload_fragment c commands promises =
    promises ++ map (λ x. process_command c x.1 x.0) commands

-- `Promise.all`: it rejects if one rejects, and resolves when all have.
abbrev both : Settled → Settled → Settled
both rejected _ = rejected
both resolved s = s
both pending rejected = rejected
both pending _ = pending

unfoldable pub finish_all_commands : List Scheduled → Settled
finish_all_commands [] = resolved
finish_all_commands (p ∷ ps) = let rest = finish_all_commands ps in both p.outcome rest

-- A command is run at its offset from the start of the replay, or at once if that has passed, and a
-- command that comes later in the log does not run earlier.
pub process_command_lem :
    (c : Clock) (answered later_answered : Bool) (event_time later : ℕ)
    → shifted_start c ≤ event_time
    → event_time ≤ later
    → let run = c.now + (process_command c answered event_time).delay in
      let planned = c.start_time + (event_time - shifted_start c) in
      (c.now ≤ run)
      × (planned ≤ run)
      × ((run ≡ c.now) ⊎ (run ≡ planned))
      × (run ≤ c.now + (process_command c later_answered later).delay)
unfolding process_command
process_command_lem c answered later_answered event_time later h k =
    (omega arith, omega (arith, h), ground (arith, h), omega (arith, h, k))

abbrev pub Punctual : Clock → Timed → Type 0
Punctual c x = (shifted_start c ≤ x.0) × (c.start_time ≤ c.now)

both-resolved : (a b : Settled) → (both a b ≡ resolved) ↔ ((a ≡ resolved) × (b ≡ resolved))
both-resolved resolved b = ((λ h. (refl, h)), λ h. h.1)
both-resolved rejected b = ((λ h. cc), λ h. cc)
both-resolved pending resolved = ((λ h. cc), λ h. cc)
both-resolved pending rejected = ((λ h. cc), λ h. cc)
both-resolved pending pending = ((λ h. cc), λ h. cc)

-- The nested tests of `settle`, on their own numbers.
settled_tests :
    (t start now begun : ℕ) (query_ok : Bool)
    → ((if ltb t start
          then rejected
          else (if ltb now begun then rejected else (if query_ok then resolved else pending)))
        ≡ resolved)
      ↔ (((start ≤ t) × (begun ≤ now)) × (query_ok ≡ true))
settled_tests t start now begun true = ground arith
settled_tests t start now begun false = ground arith

settle-resolved :
    (c : Clock) (x : Timed) → (settle c x.1 x.0 ≡ resolved) ↔ (Punctual c x × (x.1 ≡ true))
unfolding settle
settle-resolved c x = settled_tests x.0 (shifted_start c) c.now c.start_time x.1

in_time_tests :
    (t start now begun : ℕ) (s : Settled)
    → start ≤ t
    → begun ≤ now
    → (if ltb t start then rejected else (if ltb now begun then rejected else s)) ≡ s
in_time_tests t start now begun s h k = ground arith

settle-Punctual :
    (c : Clock) (x : Timed) → Punctual c x → settle c x.1 x.0 ≡ (if x.1 then resolved else pending)
unfolding settle
settle-Punctual c x h =
    in_time_tests x.0 (shifted_start c) c.now c.start_time (if x.1 then resolved else pending) h.0
      h.1

finish-Punctual :
    (c : Clock) (commands : List Timed)
    → All (Punctual c) commands
    → finish_all_commands (map (λ x. process_command c x.1 x.0) commands)
      ≡ (if any (λ x. not x.1) commands then pending else resolved)
unfolding finish_all_commands process_command any
finish-Punctual c [] h = refl
finish-Punctual c ((t, true) ∷ commands) (p, h) =
    rw (settle-Punctual c (t, true) p) (finish-Punctual c commands h)
finish-Punctual c ((t, false) ∷ commands) (p, h) = rw (settle-Punctual c (t, false) p) (
    rw (finish-Punctual c commands h)
      (elim (Bool-cases (any (λ x. not x.1) commands)) [ inl e ↦ rw e refl | inr e ↦ rw e refl ]))

-- The promises of a fragment all resolve exactly if every command is in time and its query succeeds.
pub finish_all_commands_resolved :
    (c : Clock) (commands : List Timed)
    → (finish_all_commands (process_workload_fragment c commands []) ≡ resolved)
      ↔ All (λ x. Punctual c x × (x.1 ≡ true)) commands
unfolding process_workload_fragment finish_all_commands process_command
finish_all_commands_resolved c commands = all_resolved commands
  where
    all_resolved :
        (cs : List Timed)
        → (finish_all_commands (map (λ x. process_command c x.1 x.0) cs) ≡ resolved)
          ↔ All (λ x. Punctual c x × (x.1 ≡ true)) cs
    all_resolved [] = ((λ h. tt), λ h. refl)
    all_resolved (x ∷ cs) =
        let rest = finish_all_commands (map (λ y. process_command c y.1 y.0) cs) in
        let split = both-resolved (settle c x.1 x.0) rest in
        let one = settle-resolved c x in
        let tail = all_resolved cs in
        ((λ h. (one.0 (split.0 h).0, tail.0 (split.0 h).1)), λ h. split.1 (one.1 h.0, tail.1 h.1))

-- Of commands that are all in time, `finishAllCommands` resolves if all queries succeed, and is never
-- settled if one fails.
pub finish_all_commands-Punctual :
    (c : Clock) (commands : List Timed)
    → All (Punctual c) commands
    → finish_all_commands (process_workload_fragment c commands [])
      ≡ (if any (λ x. not x.1) commands then pending else resolved)
unfolding process_workload_fragment
finish_all_commands-Punctual c commands h = finish-Punctual c commands h

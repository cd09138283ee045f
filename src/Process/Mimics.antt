-- ===== src/Process/Mimics.antt =====
-- capture/src/mimic/replay-manager.ts (loadReplay, start, end, dontPanic) and what capture/src/mimic/mimic.ts
-- does with the replays in its setup, its rounds and its teardown, on the database of the service.
pub mod Loaded
pub mod Setup
use lil_bobby_tables_my_crt.Common.Tests.{
  ℕ, String, Bool, true, false, Option, none, some, List, [], ◌∷◌, if◌then◌else◌,
}
use lil_bobby_tables_my_crt.Common.Action.{◌>>=◌, ◌>>◌, pure}
use lil_bobby_tables_my_crt.Data.{starting, running, stopping, done, failed}
use Prim.Native.String.{◌++◌ as ◌then◌}
use lil_bobby_tables_my_crt.Service.Tables.{DbReference}
use lil_bobby_tables_my_crt.Service.Http.{Handler}
use lil_bobby_tables_my_crt.Service.ReplayDao.{
  Replay, get_replay, update_replay_status, update_replay_start_time, update_replay_end_time,
}
use lil_bobby_tables_my_crt.Service.EnvironmentDao.Editing.{get_db_reference}

-- A `ReplayManager`: its replay and whether it has started.
pub record ReplayManager : Type 0 where
  pub id : ℕ
  pub has_started : Bool

unfoldable pub dont_panic : ℕ → String → Handler (Unit {0})
dont_panic id reason = update_replay_status id failed (some reason)

-- `environmentDao.getDbReference(r.dbId!)`; no row has the id null.
unfoldable pub reference_of : Option ℕ → Handler (Option DbReference)
unfolding pure
reference_of none = pure none
reference_of (some id) = get_db_reference id

unfoldable pub connected : ℕ → Option String → Handler Bool
unfolding dont_panic pure
connected id none = update_replay_status id starting none >> pure true
connected id (some reason) = dont_panic id reason >> pure false

-- The argument `rejects` tells with which reason a query on a target is rejected, if it is.
module _ (rejects : DbReference → Option String) where
  unfoldable pub load_on : ℕ → Option DbReference → Handler Bool
  unfolding connected pure
  load_on id none = pure false
  load_on id (some db) = connected id (rejects db)

  unfoldable pub load_found : ℕ → Option Replay → Handler Bool
  unfolding load_on reference_of pure
  load_found id none = pure false
  load_found id (some r) = reference_of r.db_id >>= load_on id

  -- `loadReplay`
  unfoldable pub load_replay : ℕ → Handler Bool
  unfolding load_found
  load_replay id = get_replay id >>= load_found id

  -- One turn of the loop in `Mimic.setup`
  unfoldable pub kept_if : ℕ → Bool → Handler (Option ReplayManager)
  unfolding dont_panic pure
  kept_if id true = pure (some (record { id = id; has_started = false }))
  kept_if id false = dont_panic id "Failed to load" >> pure none

  unfoldable pub load_one : ℕ → Handler (Option ReplayManager)
  unfolding load_replay kept_if
  load_one id = load_replay id >>= kept_if id

  abbrev pub pushed : Option ReplayManager → List ReplayManager → List ReplayManager
  pushed none ms = ms
  pushed (some m) ms = m ∷ ms

  -- The replays that `Mimic.setup` keeps, in the order of `replayIds`
  unfoldable pub load_all : List ℕ → Handler (List ReplayManager)
  load_all [] = pure []
  load_all (id ∷ ids) = do m ← load_one id; ms ← load_all ids; pure (pushed m ms)

-- `start`
unfoldable pub start : ReplayManager → Handler ReplayManager
unfolding pure
start m = do
  update_replay_start_time m.id
  update_replay_status m.id running none
  pure (record m { has_started = true })

-- What a round of `Mimic.loop` does first: the replays that have not started are started.
unfoldable pub start_all : List ReplayManager → Handler (List ReplayManager)
unfolding start pure
start_all [] = pure []
start_all (m ∷ ms) = do
  n ← if m.has_started then pure m else start m
  ns ← start_all ms
  pure (n ∷ ns)

-- The loops of `Mimic.teardown`
unfoldable pub stop_all : List ReplayManager → Handler (Unit {0})
unfolding pure
stop_all [] = pure tt
stop_all (m ∷ ms) = update_replay_status m.id stopping none >> stop_all ms

unfoldable pub end_all : List ReplayManager → Handler (Unit {0})
unfolding pure
end_all [] = pure tt
end_all (m ∷ ms) = do update_replay_status m.id done none; update_replay_end_time m.id; end_all ms

-- `Mimic.dontPanic`, after the capture's
unfoldable pub dont_panic_all : String → List ReplayManager → Handler (Unit {0})
unfolding dont_panic pure
dont_panic_all reason [] = pure tt
dont_panic_all reason (m ∷ ms) =
    dont_panic m.id ("Capture failed while mimicking: " then reason) >> dont_panic_all reason ms

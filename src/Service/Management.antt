-- ===== src/Service/Management.antt =====
-- service/src/management: what the service does with captures and replays when it starts.
use lil_bobby_tables_my_crt.Common.Tests.{true, false, none, some, List, [], ◌∷◌}
use lil_bobby_tables_my_crt.Common.Action.{◌>>=◌, ◌>>◌, pure}
use lil_bobby_tables_my_crt.Data.{failed}
use lil_bobby_tables_my_crt.Service.Http.{launch_at, Handler, send}
use lil_bobby_tables_my_crt.Service.CaptureDao.{
  Capture, get_scheduled_captures, update_capture_status,
}
use lil_bobby_tables_my_crt.Service.ReplayDao.{Replay, get_abandoned_replays, update_replay_status}
pub mod Abandoned

-- `doReschedule`: a captured time is always there, since the query asks for it.
unfoldable pub do_reschedule : Capture → Handler (Unit {0})
unfolding send
do_reschedule c = elim c.scheduled_start [ none ↦ pure tt | some time ↦ send (launch_at time c.id) ]

unfoldable pub mark_failed : Capture → Handler (Unit {0})
unfolding update_capture_status
mark_failed c = update_capture_status c.id failed (some "Server down when scheduled to start")

-- `for (const capture of captures)`
unfoldable pub for_each : {A : Type 0} → (A → Handler (Unit {0})) → List A → Handler (Unit {0})
unfolding pure
for_each f [] = pure tt
for_each f (a ∷ xs) = let rest = for_each f xs in f a >> rest

unfoldable pub reschedule_captures : Handler (Unit {0})
unfolding get_scheduled_captures do_reschedule mark_failed for_each
reschedule_captures w =
    (get_scheduled_captures true w.now >>= λ future.
    (for_each do_reschedule future
      >> (get_scheduled_captures false w.now >>= for_each mark_failed)))
      w

unfoldable pub mark_abandoned : Replay → Handler (Unit {0})
unfolding update_replay_status
mark_abandoned r = update_replay_status r.id failed (some "Replay was abandoned by server")

-- The database of the model answers every query, so the `catch` of the query is not reached.
unfoldable pub mark_abandoned_replays_as_failed : Handler (Unit {0})
unfolding get_abandoned_replays mark_abandoned for_each
mark_abandoned_replays_as_failed = get_abandoned_replays >>= for_each mark_abandoned

-- ===== src/Process/Window.antt =====
-- The window of time that one round of a capture or a replay gathers data for: `Capture.loop`,
-- `ReplayManager.retrieveMetrics` and `Replay.logMetrics` compute it in the same way.
use lil_bobby_tables_my_crt.Common.Tests.{
  ℕ, ◌+◌, ◌-◌, ◌≤◌, Option, none, some, arith, ltb, if◌then◌else◌,
}

-- `start = end - interval - overlap`, but not before the process started. The subtraction is made only
-- where it does not go below the start.
unfoldable pub window_start : ℕ → ℕ → ℕ → ℕ → ℕ
window_start interval overlap started end =
    if ltb end (started + interval + overlap) then started else end - interval - overlap

-- `Replay.logMetrics` gathers metrics only if the window is longer than the overlap;
-- `ReplayManager.retrieveMetrics` does if it is not shorter.
unfoldable pub log_metrics_window : ℕ → ℕ → ℕ → ℕ → Option (ℕ × ℕ)
unfolding window_start
log_metrics_window interval overlap started end =
    let start = window_start interval overlap started end in
    if ltb overlap (end - start) then some (start, end) else none

unfoldable pub retrieve_metrics_window : ℕ → ℕ → ℕ → ℕ → Option (ℕ × ℕ)
unfolding window_start
retrieve_metrics_window interval overlap started end =
    let start = window_start interval overlap started end in
    if ltb (end - start) overlap then none else some (start, end)

-- A window starts no earlier than the process, ends when it is computed, and is no longer than the
-- interval and the overlap; the next one starts no later than this one ends, if it ends within the
-- interval and the overlap: nothing is left out between two rounds.
pub window_start_covers :
    (interval overlap started end next : ℕ)
    → started ≤ end
    → end ≤ next
    → next ≤ end + interval + overlap
    → (started ≤ window_start interval overlap started end)
      × (window_start interval overlap started end ≤ end)
      × (end ≤ window_start interval overlap started end + interval + overlap)
      × (window_start interval overlap started next ≤ end)
unfolding window_start
window_start_covers interval overlap started end next h k l = ground arith

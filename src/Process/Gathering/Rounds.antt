-- ===== src/Process/Gathering/Rounds.antt =====
-- The files that the rounds of a capture leave (capture.ts), where the log answers each query.
use lil_bobby_tables_my_crt.Common.Tests.{
  ℕ, ◌+◌, ◌≤◌, ◌<◌, String, ◌≡◌, refl, ap, ◌∙◌, Bool, true, false, ◌&&◌, Option, some, List, [],
  ◌∷◌, arith, leb, if◌then◌else◌,
}
use lil_bobby_tables_my_crt.Common.Lists.{select}
use lil_bobby_tables_my_crt.Common.Exec.{Result, ok, throw}
use lil_bobby_tables_my_crt.Common.Action.{Action, continue, ◌>>=◌, pure}
use lil_bobby_tables_my_crt.Storage.Fragmented.Samples.{
  sample_key, found_after, single_sample_key_lem,
}
use lil_bobby_tables_my_crt.Process.Gathering.{
  gather, Config, Gathering, send_fragment, send_workload_to_s3, or_unable, request_if_mock, loop,
}
use lil_bobby_tables_my_crt.Data.{Command, Workload}
use lil_bobby_tables_my_crt.Storage.Schema.{Key, Error, workload, root_prefix}
use lil_bobby_tables_my_crt.Storage.Backend.{StorageBackend, IsLawful, key_eq}
use lil_bobby_tables_my_crt.Workload.Logger.{
  LoggerMethods, Logger, seven_hours, outside, get_workload_fragment,
}
use lil_bobby_tables_my_crt.Workload.Prep.{prepare_workload}
use lil_bobby_tables_my_crt.Process.Tries.{try_twice}
use lil_bobby_tables_my_crt.Process.Window.{window_start}
use lil_bobby_tables_my_crt.Process.Gathering.Windows.{Paced, window_start-lt}

module _ (logged_at : Command → ℕ) where
  abbrev pub is_between : ℕ → ℕ → Command → Bool
  is_between start end c = leb start (logged_at c) && leb (logged_at c) end

  -- The general log is a list of commands, of which a query gives those of its window, both ends
  -- included (`event_time BETWEEN ? AND ?`), whatever happens outside.
  abbrev pub Answers : {World : Type 0} → LoggerMethods World → List Command → Type 0
  Answers {World} methods log =
      (start end : ℕ) (w : World)
      → (methods.query_general_log start end w).0 ≡ ok (select (is_between start end) log)

module _ {World : Type 0} (methods : LoggerMethods World) (backend : StorageBackend Workload)
    (date_string : ℕ → String) (fake_request : Action World Error (Unit {0})) (config : Config)
    (logged_at : Command → ℕ) (log : List Command) (root : Key) where
  abbrev start_of : ℕ → ℕ
  start_of end = window_start config.interval config.interval_overlap config.start_time end

  -- The fragment of the round at a time, and the file that it is kept in.
  abbrev pub fragment : ℕ → Workload
  fragment end =
      prepare_workload
        (record {
          start = date_string (start_of end + seven_hours);
          end = date_string (end + seven_hours);
          commands = select (is_between logged_at (start_of end) end) log;
        })
        config.mock

  module _ (answers : Answers logged_at methods log) (rooted : root_prefix config.program ≡ ok root)
      (spanned : 0 < config.interval + config.interval_overlap)
      (contents : backend.State → Key → Option Workload) (lawful : IsLawful backend contents) where
    get_workload_fragment_lem :
        (start end : ℕ) (l : Logger World)
        → l.logging ≡ true
        → start < end
        → get_workload_fragment methods date_string start end l ≡ (
          ok (record {
            start = date_string (start + seven_hours);
            end = date_string (end + seven_hours);
            commands = select (is_between logged_at start end) log;
          }),
          record l { world = (methods.query_general_log start end l.world).1 },
        )
    unfolding get_workload_fragment outside ◌>>=◌
    get_workload_fragment_lem start end l on lt =
        let later : leb end start ≡ false = ground (arith, lt) in
        rw on (rw later (rw (answers start end l.world) refl))

    send_fragment_lem :
        (end : ℕ) (g : Gathering World backend.State)
        → g.logger.logging ≡ true
        → start_of end < end
        → send_fragment methods backend date_string fake_request config (start_of end) end g ≡ (
          ok (fragment end),
          record g {
            logger = record g.logger {
              world = (methods.query_general_log (start_of end) end g.logger.world).1;
            };
            files = (backend.write_json (sample_key workload root end) (fragment end) g.files).1;
          },
        )
    unfolding send_fragment ◌>>=◌
    send_fragment_lem end g on lt =
        rw (get_workload_fragment_lem (start_of end) end g.logger on lt) (
          rw (single_sample_key_lem workload root config.program rooted end)
            (rw (lawful.write_ok g.files (sample_key workload root end) (fragment end)) refl))

    -- What is found after the round at a time.
    abbrev Sent : ℕ → Gathering World backend.State → Gathering World backend.State → Type 0
    Sent end g h =
        (h.logger.logging ≡ true)
        × ((k : Key)
            → contents h.files k ≡ (
                if key_eq (sample_key workload root end) k
                then some (fragment end)
                else contents g.files k))

    stays :
        (w : Workload) (r : Result Error (Unit {0})) (g : Gathering World backend.State)
        → (continue r (λ u. pure w) g).1 ≡ g
    unfolding pure
    stays w (ok u) g = refl
    stays w (throw e) g = refl

    -- The request of a mock capture changes neither the switch of the logger nor the files.
    requested :
        (mock : Bool) (w : Workload) (g : Gathering World backend.State)
        → let h =
            ((request_if_mock methods backend date_string fake_request config mock >>= λ u. pure w)
              g).1 in
          (h.logger.logging ≡ g.logger.logging) × (h.files ≡ g.files)
    unfolding request_if_mock ◌>>=◌
    requested true w g =
        let r = fake_request g.logger.world in
        let same = stays w r.0 (record g { logger = record g.logger { world = r.1 } }) in
        (ap (λ h. h.logger.logging) same, ap (λ h. h.files) same)
    requested false w g = (refl, refl)

    loop_lem :
        (end : ℕ) (g : Gathering World backend.State)
        → g.logger.logging ≡ true
        → config.start_time < end
        → Sent end g (loop methods backend date_string fake_request config end g).1
    unfolding loop send_workload_to_s3 try_twice or_unable request_if_mock ◌>>=◌
    loop_lem end g on later =
        let lt =
          window_start-lt config.interval config.interval_overlap config.start_time end later
            spanned in
        let written = lawful.write_lem g.files (sample_key workload root end) (fragment end) in
        let asked = requested config.mock (fragment end) (record g {
          logger = record g.logger {
            world = (methods.query_general_log (start_of end) end g.logger.world).1;
          };
          files = (backend.write_json (sample_key workload root end) (fragment end) g.files).1;
        }) in
        rw (send_fragment_lem end g on lt)
          (asked.0 ∙ on, λ k. ap (λ f. contents f k) asked.1 ∙ written k)

    pub gather_lem :
        (ends : List ℕ) (g : Gathering World backend.State) (previous last : ℕ)
        → g.logger.logging ≡ true
        → config.start_time ≤ previous
        → Paced (config.interval + config.interval_overlap) previous ends last
        → let h = gather methods backend date_string fake_request config ends g in
          (h.logger.logging ≡ true)
          × ((k : Key)
              → contents h.files k ≡ found_after workload root fragment ends k (contents g.files k))
    unfolding gather
    gather_lem [] g previous last on s h = (on, λ k. refl)
    gather_lem (end ∷ ends) g previous last on s (p, q, h) =
        let one = loop_lem end g on (omega (arith, s, p)) in
        let rest =
          gather_lem ends (loop methods backend date_string fake_request config end g).1 end last
            one.0 (omega (arith, s, p)) h in
        (rest.0, λ k. rest.1 k ∙ ap (found_after workload root fragment ends k) (one.1 k))

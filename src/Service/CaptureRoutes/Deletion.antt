-- ===== src/Service/CaptureRoutes/Deletion.antt =====
-- What the deletion of a capture leaves.
use lil_bobby_tables_my_crt.Service.EnvironmentRoutes.Deletion.{AllBut, delete_where-AllBut}
use lil_bobby_tables_my_crt.Common.Tests.{
  ap, ◌∙◌, ℕ, ◌≡◌, refl, inl, inr, Bool, true, false, none, some, [], ◌∷◌, ◌++◌, ◌==◌, Bool-cases,
  Option-cases,
}
use lil_bobby_tables_my_crt.Common.Exec.{ok}
use lil_bobby_tables_my_crt.Common.Action.{◌>>=◌}
use lil_bobby_tables_my_crt.Service.Tables.Rows.{select-join, select-delete_where}
use lil_bobby_tables_my_crt.Service.Tables.{first_row, join, is_id, delete_where, User, Tables}
use lil_bobby_tables_my_crt.Service.Http.{delete_prefix, stop_capture, World}
use lil_bobby_tables_my_crt.Service.CaptureDao.{without_capture, Capture, capture_of}
use lil_bobby_tables_my_crt.Service.CaptureRoutes.{
  delete_logs_of, logs_prefix, environment_full_of?, stop_first, is_stoppable, delete_route,
}
use lil_bobby_tables_my_crt.Service.CaptureRoutes.Rights.{Administers, granted_lem}

none_left : (id : ℕ) (t : Tables) → capture_of id (without_capture id t) ≡ none
unfolding capture_of without_capture first_row join
none_left id t =
    rw
      (select-join (λ c. c.id == id) (λ c u. is_id c.owner_id u.id)
        (delete_where (λ c. c.id == id) t.captures) t.users)
      (rw (select-delete_where (λ c. c.id == id) t.captures) refl)

-- The logs are deleted from the bucket, and no table is changed by it.
logs_lem :
    (c : Capture) (is_delete_logs : Bool) (id : ℕ) (w : World)
    → (s : World) × (s.tables ≡ w.tables) × (delete_logs_of c is_delete_logs id w ≡ (ok tt, s))
unfolding delete_logs_of ◌>>=◌
logs_lem c false id w = (w, refl, refl)
logs_lem c true id w = elim (Option-cases (environment_full_of? c.env_id w.tables)) [
  | inl e ↦ (w, refl, rw e refl)
  | inr (env, e) ↦ (
    record w { sent = w.sent ++ (delete_prefix (logs_prefix "capture" env.id id) ∷ []) },
    refl,
    rw e refl,
  )
]

stop_first_lem :
    (c : Capture) (w : World)
    → (s : World) × (s.tables ≡ w.tables) × (stop_first (some c) w ≡ (ok tt, s))
unfolding stop_first
stop_first_lem c w = elim (Bool-cases (is_stoppable c.status)) [
  | inl e ↦ (record w { sent = w.sent ++ (stop_capture c.id ∷ []) }, refl, rw e refl)
  | inr e ↦ (w, refl, rw e refl)
]

deleted :
    (user : User) (id : ℕ) (is_delete_logs : Bool) (w : World)
    → Administers user id w.tables
    → let r = delete_route user id is_delete_logs w in
      (r.0 ≡ ok (some tt)) × (r.1.tables ≡ without_capture id w.tables)
unfolding delete_route ◌>>=◌
deleted user id is_delete_logs w a =
    let s = stop_first_lem a.capture w in
    let gone : World = record s.0 { tables = without_capture id s.0.tables } in
    let l = logs_lem a.capture is_delete_logs id gone in
    rw (granted_lem user id w a) (
      rw a.exists
        (rw s.2 (rw s.1 (rw a.exists (rw l.2 (refl, l.1 ∙ ap (without_capture id) s.1))))))

-- An administrator's deletion succeeds: afterwards there is no capture of that id, the captures are those
-- before with another id, the replays those before of other captures, and every other table is as
-- before.
pub delete_route_lem :
    (user : User) (id : ℕ) (is_delete_logs : Bool) (w : World)
    → Administers user id w.tables
    → let r = delete_route user id is_delete_logs w in
      (r.0 ≡ ok (some tt))
      × (capture_of id r.1.tables ≡ none)
      × AllBut (λ c. c.id == id) w.tables.captures r.1.tables.captures
      × AllBut (λ p. is_id p.capture_id id) w.tables.replays r.1.tables.replays
      × (record r.1.tables { captures = w.tables.captures; replays = w.tables.replays } ≡ w.tables)
unfolding without_capture
delete_route_lem user id is_delete_logs w a =
    let done = deleted user id is_delete_logs w a in
    (
      done.0,
      rw done.1 (none_left id w.tables),
      rw done.1 (delete_where-AllBut (λ c. c.id == id) w.tables.captures),
      rw done.1 (delete_where-AllBut (λ p. is_id p.capture_id id) w.tables.replays),
      ap
          (λ t.
            let u : Tables = record t {
              captures = w.tables.captures;
              replays = w.tables.replays;
            } in
            u)
          done.1,
    )

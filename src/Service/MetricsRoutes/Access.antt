-- ===== src/Service/MetricsRoutes/Access.antt =====
-- Who is shown metrics, and of what.
use lil_bobby_tables_my_crt.Common.Tests.{
  ℕ, ◌≡◌, refl, inl, inr, true, Option, some, Bool-cases, Option-cases,
}
use lil_bobby_tables_my_crt.Common.Exec.{Result, ok, throw}
use lil_bobby_tables_my_crt.Common.Action.{◌>>=◌}
use lil_bobby_tables_my_crt.Service.MetricsRoutes.{
  rejection, MockSettings, BackendChoice, valid_status, choose_backend, program_of, replay_metrics,
  get_metrics,
}
use lil_bobby_tables_my_crt.Data.{
  ChildProgramType, replay, ChildProgramStatus, ChildProgram, MetricType,
}
use lil_bobby_tables_my_crt.Service.Tables.{User}
use lil_bobby_tables_my_crt.Service.Http.{Failure, Text, World, query}
use lil_bobby_tables_my_crt.Service.EnvironmentDao.{EnvironmentFull}
use lil_bobby_tables_my_crt.Service.InviteDao.{membership}
use lil_bobby_tables_my_crt.Service.CaptureDao.{Capture}
use lil_bobby_tables_my_crt.Service.ReplayDao.{Replay, replay_of}
use lil_bobby_tables_my_crt.Service.CaptureRoutes.{environment_full_of?, without_details}
use lil_bobby_tables_my_crt.Service.ReplayRoutes.{capture_of?}

module _ {Reply : Type 0} (settings : MockSettings)
    (read : BackendChoice → ChildProgram → Option MetricType → Result Text Reply) where
  not_ok : {e : Failure} {reply : Reply} → throw e ≡ ok reply → ⊥
  not_ok h = cc

  get_metrics_state :
      (type : ChildProgramType) (id : ℕ) (status : ChildProgramStatus) (e : EnvironmentFull)
      (metric_type : Option MetricType) (w : World)
      → (get_metrics settings read type id status e metric_type w).1 ≡ w
  unfolding get_metrics
  get_metrics_state type id status e metric_type w = elim (Bool-cases (valid_status status)) [
    | inl v ↦ rw v refl
    | inr v ↦ rw v refl
  ]

  get_metrics_ok :
      (type : ChildProgramType) (id : ℕ) (status : ChildProgramStatus) (e : EnvironmentFull)
      (metric_type : Option MetricType) (w : World) {reply : Reply}
      → (get_metrics settings read type id status e metric_type w).0 ≡ ok reply
      → (valid_status status ≡ true)
        × (read (choose_backend settings type e) (program_of type id status e) metric_type
            ≡ ok reply)
  unfolding get_metrics
  get_metrics_ok type id status e metric_type w h = elim (Bool-cases (valid_status status)) [
    | inl v ↦ (
      v,
      from_read (read (choose_backend settings type e) (program_of type id status e) metric_type)
          (rw v at h),
    )
    | inr v ↦ absurd (not_ok (rw v at h))
  ]
    where
      from_read :
          (r : Result Text Reply) {reply : Reply}
          → rejection settings read r ≡ ok reply
          → r ≡ ok reply
      from_read (ok a) p = cc
      from_read (throw e) p = cc

  -- If the route answers with metrics of a replay, the user is a member of the environment of the
  -- replay's capture, the replay is done, running or stopping, and the metrics are those that the
  -- environment's backend holds for the replay; the tables and what was sent are as before.
  pub replay_metrics_ok :
      (user : User) (id : ℕ) (metric_type : Option MetricType) (w : World) (reply : Reply)
      → (replay_metrics settings read user id metric_type w).0 ≡ ok reply
      → ((replay_metrics settings read user id metric_type w).1 ≡ w)
        × (r : Replay) × (c : Capture) × (e : EnvironmentFull) × (replay_of id w.tables ≡ some r)
        × (capture_of? r.capture_id w.tables ≡ some c)
        × (environment_full_of? c.env_id w.tables ≡ some e)
        × ((membership user (without_details e) w.tables).is_member ≡ true)
        × (valid_status r.status ≡ true)
        × (read (choose_backend settings replay e) (program_of replay r.id r.status e) metric_type
            ≡ ok reply)
  unfolding replay_metrics ◌>>=◌ query
  replay_metrics_ok user id metric_type w reply h = elim (Option-cases (replay_of id w.tables)) [
    | inl a ↦ absurd (not_ok (rw a at h))
    | inr (r, a) ↦ elim (Option-cases (capture_of? r.capture_id w.tables)) [
      | inl b ↦ absurd (not_ok (rw b at (rw a at h)))
      | inr (c, b) ↦ elim (Option-cases (environment_full_of? c.env_id w.tables)) [
        | inl d ↦ absurd (not_ok (rw d at (rw b at (rw a at h))))
        | inr (e, d) ↦ elim (Bool-cases (membership user (without_details e) w.tables).is_member) [
          | inl m ↦
              let g =
                get_metrics_ok replay r.id r.status e metric_type w
                  (rw m at (rw d at (rw b at (rw a at h)))) in
              (
                rw a (rw b (rw d (rw m (get_metrics_state replay r.id r.status e metric_type w)))),
                r,
                c,
                e,
                a,
                b,
                d,
                m,
                g.0,
                g.1,
              )
          | inr m ↦ absurd (not_ok (rw m at (rw d at (rw b at (rw a at h)))))
        ]
      ]
    ]
  ]

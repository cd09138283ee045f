-- ===== src/Service/CaptureRoutes/Rights.antt =====
-- Who may stop, rename and delete a capture, and what stopping does.
use lil_bobby_tables_my_crt.Common.Tests.{
  ℕ, String, ◌≡◌, refl, ◌≢◌, ◌⊎◌, inl, inr, Bool, true, none, some, List, [], ◌∷◌, ◌++◌,
  if◌then◌else◌, Bool-cases, Option-cases,
}
use lil_bobby_tables_my_crt.Common.Exec.{ok, throw}
use lil_bobby_tables_my_crt.Common.Action.{◌>>=◌}
use lil_bobby_tables_my_crt.Service.Http.{
  execute, Failure, http_error, Message, stop_capture, World,
}
use lil_bobby_tables_my_crt.Data.{
  ChildProgramStatus, scheduled, started, starting, running, stopping, done, failed,
}
use lil_bobby_tables_my_crt.Service.Tables.{CaptureRow, User, Tables}
use lil_bobby_tables_my_crt.Service.EnvironmentDao.{Environment}
use lil_bobby_tables_my_crt.Service.InviteDao.{membership}
use lil_bobby_tables_my_crt.Service.CaptureDao.{update_captures, Capture, capture_of}
use lil_bobby_tables_my_crt.Service.CaptureRoutes.{
  stop_found, no_environment, environment_of?, find_as_admin, stop_route, rename_route,
  delete_route, not_found,
}

-- The capture's environment exists, and the user administers it.
pub record IsAdminOf (user : User) (c : Capture) (t : Tables) : Type 0 where
  pub environment : Environment
  pub exists : environment_of? c.env_id t ≡ some environment
  pub is_admin : (membership user environment t).is_admin ≡ true

-- The user administers the capture of this id.
pub record Administers (user : User) (id : ℕ) (t : Tables) : Type 0 where
  pub capture : Capture
  pub exists : capture_of id t ≡ some capture
  pub rights : IsAdminOf user capture t

-- The capture as the route marks it when no process answers.
abbrev pub failed_by_signal : CaptureRow → CaptureRow
failed_by_signal c = record c {
  status = failed;
  reason = some "Failed to send the capture stop signal";
}

-- What the start of the routes finds, at one state.
data Found (user : User) (id : ℕ) (w : World) : Type 0 where
  refused : (e : Failure) → find_as_admin user id w ≡ (throw e, w) → Found user id w
  granted :
      (a : Administers user id w.tables)
      → find_as_admin user id w ≡ (ok a.capture, w)
      → Found user id w

found : (user : User) (id : ℕ) (w : World) → Found user id w
unfolding find_as_admin ◌>>=◌
found user id w = elim (Option-cases (capture_of id w.tables)) [
  | inl e ↦ refused not_found (rw e refl)
  | inr (c, e) ↦ elim (Option-cases (environment_of? c.env_id w.tables)) [
    | inl p ↦ refused (no_environment "Capture " id) (rw e (rw p refl))
    | inr (env, p) ↦ elim (Bool-cases (membership user env w.tables).is_admin) [
      | inl q ↦
          granted
            (record {
              capture = c;
              exists = e;
              rights = record { environment = env; exists = p; is_admin = q };
            })
            (rw e (rw p (rw q refl)))
      | inr q ↦ refused (http_error 401 none) (rw e (rw p (rw q refl)))
    ]
  ]
]

pub granted_lem :
    (user : User) (id : ℕ) (w : World) (a : Administers user id w.tables)
    → find_as_admin user id w ≡ (ok a.capture, w)
unfolding find_as_admin ◌>>=◌
granted_lem user id w a = rw a.exists (rw a.rights.exists (rw a.rights.is_admin refl))

module _ (delivered : ℕ → List Message → Bool) where
  -- A user who does not administer the environment of a capture, or asks for none that exists,
  -- cannot stop, rename or delete it: the routes fail and change nothing. Owning the capture does
  -- not help.
  pub only_administrators :
      (user : User) (id : ℕ) (name : String) (is_delete_logs : Bool) (w : World)
      → ¬ Administers user id w.tables
      → ((e : Failure) × (stop_route delivered user id w ≡ (throw e, w)))
        × ((e : Failure) × (rename_route user id name w ≡ (throw e, w)))
        × ((e : Failure) × (delete_route user id is_delete_logs w ≡ (throw e, w)))
  unfolding stop_route rename_route delete_route ◌>>=◌
  only_administrators user id name is_delete_logs w not_admin = elim (found user id w) [
    | refused e p ↦ rw p ((e, refl), (e, refl), (e, refl))
    | granted a p ↦ absurd (not_admin a)
  ]

  stop_found_lem :
      (c : Capture) (s : ChildProgramStatus) (w : World)
      → let signalled : World = record w { sent = w.sent ++ (stop_capture c.id ∷ []) } in
        ((s ≡ running)
          × (if delivered c.id signalled.sent
              then stop_found delivered c s w ≡ (ok tt, signalled)
              else ((e : Failure) × (stop_found delivered c s w ≡ (
                throw e,
                record signalled { tables = update_captures c.id failed_by_signal w.tables },
              )))))
        ⊎ ((s ≢ running) × ((e : Failure) × (stop_found delivered c s w ≡ (throw e, w))))
  unfolding stop_found ◌>>=◌ execute
  stop_found_lem c running w =
      elim (Bool-cases (delivered c.id (w.sent ++ (stop_capture c.id ∷ [])))) [
        | inl e ↦ inl (refl, rw e refl)
        | inr e ↦ inl (refl, rw e (_, refl))
      ]
  stop_found_lem c scheduled w = inr ((λ e. cc), (_, refl))
  stop_found_lem c starting w = inr ((λ e. cc), (_, refl))
  stop_found_lem c started w = inr ((λ e. cc), (_, refl))
  stop_found_lem c stopping w = inr ((λ e. cc), (_, refl))
  stop_found_lem c done w = inr ((λ e. cc), (_, refl))
  stop_found_lem c failed w = inr ((λ e. cc), (_, refl))

  -- For an administrator of a capture: if it is running, the signal is sent, and the route succeeds if
  -- the process answers, and otherwise fails and marks the capture as failed. If it is not running, the
  -- route fails and changes nothing.
  pub stop_route_lem :
      (user : User) (id : ℕ) (w : World) (a : Administers user id w.tables)
      → let signalled : World = record w { sent = w.sent ++ (stop_capture a.capture.id ∷ []) } in
        ((a.capture.status ≡ running)
          × (if delivered a.capture.id signalled.sent
              then stop_route delivered user id w ≡ (ok tt, signalled)
              else ((e : Failure) × (stop_route delivered user id w ≡ (
                throw e,
                record signalled {
                  tables = update_captures a.capture.id failed_by_signal w.tables;
                },
              )))))
        ⊎ ((a.capture.status ≢ running)
            × ((e : Failure) × (stop_route delivered user id w ≡ (throw e, w))))
  unfolding stop_route ◌>>=◌
  stop_route_lem user id w a =
      rw (granted_lem user id w a) (stop_found_lem a.capture a.capture.status w)

-- ===== src/Service/InviteRoutes/Validity.antt =====
-- Each route for invitations keeps the members in good order, whether it returns or throws.
pub mod Requests
use lil_bobby_tables_my_crt.Common.Tests.{
  codes, sym, ℕ, ◌+◌, ◌-◌, String, ◌≡◌, refl, ap, inl, inr, Bool, true, false, not, Option, none,
  some, List, [], ◌∷◌, arith, str_eq, ltb, ◌==◌, if◌then◌else◌, Bool-cases, Option-cases,
}
use lil_bobby_tables_my_crt.Common.Lists.{select, In, In-select}
use lil_bobby_tables_my_crt.Common.Exec.{Result, ok, throw}
use lil_bobby_tables_my_crt.Common.Action.{continue, ◌>>=◌, ◌>>◌, pure, raise}
use lil_bobby_tables_my_crt.Common.Action.Keeps.{Frame, Keeps, bind-Keeps, pure-Keeps}
use lil_bobby_tables_my_crt.Service.EnvironmentDao.{
  get_environment_full, environment_full_of, EnvironmentFull, environment_of, Environment,
}
use lil_bobby_tables_my_crt.Service.Http.{
  fail_with, World, Failure, Handler, Message, execute, query, send, required, fail,
}
use lil_bobby_tables_my_crt.Service.InviteDao.{
  without_invite, with_admin, invite_of, membership, Invite, invite_of_code, bare_invite,
  invite_user, new_invite, has_references, accept_invite, ms_per_day, get_invite,
}
use lil_bobby_tables_my_crt.Service.CaptureRoutes.{not_found}
use lil_bobby_tables_my_crt.Service.Tables.{User, EnvironmentUser, Tables, first_row}
use lil_bobby_tables_my_crt.Service.InviteDao.Deadline.{Valid, added, removed, promoted, accepted}
use lil_bobby_tables_my_crt.Service.InviteRoutes.{
  unknown_environment, user_of, invite_route, withdraw_route, promote_route, accept_route,
  accept_found, accept_or_conflict, welcome, announce, unless, cannot_invite,
}

abbrev pub validity : Frame World
validity = record {
  Rel = λ w v. Valid w.tables → Valid v.tables;
  reflexive = λ w h. h;
  transitive = λ f g h. g (f h);
}

module _ {A : Type 0} where
  same_tables : {m : Handler A} → ((w : World) → (m w).1.tables ≡ w.tables) → Keeps validity m
  same_tables {m} h = record { run = λ w v. rw (h w) v }

  query-Keeps : (f : Tables → A) → Keeps validity (query f)
  unfolding query
  query-Keeps f = same_tables (λ w. refl)

  required-Keeps : (e : Failure) (o : Option A) → Keeps validity (required e o)
  unfolding required
  required-Keeps e none = same_tables (λ w. refl)
  required-Keeps e (some a) = same_tables (λ w. refl)

  fail-Keeps : (code : ℕ) → Keeps validity (fail {A = A} code)
  unfolding fail
  fail-Keeps code = same_tables (λ w. refl)

  unless-Keeps :
      (o : Option Failure) {m : Handler A} → Keeps validity m → Keeps validity (unless o m)
  unfolding unless
  unless-Keeps none h = h
  unless-Keeps (some e) h = same_tables (λ w. refl)

  if-Keeps :
      (b : Bool) {m n : Handler A}
      → Keeps validity m
      → Keeps validity n
      → Keeps validity (if b then m else n)
  if-Keeps true h k = h
  if-Keeps false h k = k

send-Keeps : (m : Message) → Keeps validity (send m)
unfolding send
send-Keeps m = same_tables (λ w. refl)

execute-Keeps :
    (f : Tables → Tables) → ((t : Tables) → Valid t → Valid (f t)) → Keeps validity (execute f)
unfolding execute
execute-Keeps f h = record { run = λ w v. h w.tables v }

announce-Keeps : (e : Environment) (o : Option Invite) → Keeps validity (announce e o)
unfolding announce
announce-Keeps e none = same_tables (λ w. refl)
announce-Keeps e (some i) = bind-Keeps (send-Keeps _) (λ u. pure-Keeps i)

invite_user-Keeps :
    (code : String) (e : Environment) (u : User) (b : Bool)
    → Keeps validity (invite_user code e u b)
unfolding invite_user ◌>>=◌ execute get_invite query
invite_user-Keeps code e u b = record {
  run = λ w v. elim (Bool-cases (has_references e u w.tables)) [
    | inl p ↦ rw p (added w.tables (new_invite code e u b w.now w.tables.next_member) refl refl v)
    | inr p ↦ rw p v
  ];
}

pub invite-Keeps :
    (code : String) (requester : User) (id : ℕ) (email : String) (b : Bool)
    → Keeps validity (invite_route code requester id email b)
unfolding invite_route
invite-Keeps code requester id email b =
    bind-Keeps
      (bind-Keeps (query-Keeps (environment_of id)) (required-Keeps (unknown_environment id)))
      (λ environment. bind-Keeps (query-Keeps (membership requester environment)) (λ m.
        unless-Keeps (cannot_invite m id) (
          bind-Keeps (bind-Keeps (query-Keeps (user_of email)) (λ o. required-Keeps _ o)) (λ user.
            bind-Keeps (invite_user-Keeps code environment user b) (announce-Keeps environment)))))

pub withdraw-Keeps : (requester : User) (id : ℕ) → Keeps validity (withdraw_route requester id)
unfolding withdraw_route
withdraw-Keeps requester id =
    bind-Keeps (bind-Keeps (query-Keeps (invite_of id)) (required-Keeps not_found)) (λ invite.
      if-Keeps (not (invite.row.user_id == requester.id)) (fail-Keeps 401)
        (execute-Keeps (without_invite id) (λ t v. removed t id v)))

pub promote-Keeps : (requester : User) (id : ℕ) → Keeps validity (promote_route requester id)
unfolding promote_route
promote-Keeps requester id =
    bind-Keeps (bind-Keeps (query-Keeps (invite_of id)) (required-Keeps not_found)) (λ env_user.
      bind-Keeps
        (bind-Keeps (query-Keeps (environment_of env_user.row.environment_id))
          (λ o. required-Keeps _ o))
        (λ environment. bind-Keeps (query-Keeps (membership requester environment)) (λ m.
          if-Keeps m.is_admin
            (bind-Keeps (execute-Keeps (with_admin id) (λ t v. promoted t id v))
              (λ u. send-Keeps _))
            (fail-Keeps 401))))

welcome-Keeps : (o : Option EnvironmentFull) → Keeps validity (welcome o)
unfolding welcome
welcome-Keeps none = same_tables (λ w. refl)
welcome-Keeps (some e) = bind-Keeps (send-Keeps _) (λ u. pure-Keeps e)

module _ {A B : Type 0} where
  bind_valid :
      (m : Handler A) {f : A → Handler B} (w : World)
      → Valid (m w).1.tables
      → ((a : A) → Keeps validity (f a))
      → Valid ((m >>= f) w).1.tables
  unfolding ◌>>=◌
  bind_valid m {f} w v k = after (m w).0
    where
      after : (r : Result Failure A) → Valid (continue r f (m w).1).1.tables
      after (ok a) = (k a).run (m w).1 v
      after (throw e) = v

module _ {A : Type 0} where
  if_valid :
      (b : Bool) (m n : Handler A) (w : World)
      → Valid (m w).1.tables
      → Valid (n w).1.tables
      → Valid ((if b then m else n) w).1.tables
  if_valid true m n w h k = h
  if_valid false m n w h k = k

-- An invitation that was read from the table is accepted in time or not at all.
accept_or_conflict_valid :
    (invite : Invite) (w : World)
    → In invite.row w.tables.members
    → Valid w.tables
    → Valid (accept_or_conflict invite w).1.tables
unfolding accept_or_conflict accept_invite execute raise
accept_or_conflict_valid invite w i v =
    elim (Bool-cases (ltb (ms_per_day + invite.row.created_at) w.now)) [
      | inl e ↦ rw e v
      | inr e ↦ rw e (accepted w.tables w.now invite.row i (ground arith) v)
    ]

accept_found_valid :
    (invite : Invite) (w : World)
    → In invite.row w.tables.members
    → Valid w.tables
    → Valid (accept_found invite w).1.tables
unfolding accept_found fail_with get_environment_full
accept_found_valid invite w i v =
    if_valid invite.row.accepted (fail_with 409 (codes "Invite has already been accepted"))
      (accept_or_conflict invite >> (get_environment_full invite.row.environment_id >>= welcome)) w
      v
      (bind_valid (accept_or_conflict invite) w (accept_or_conflict_valid invite w i v) (λ u.
        bind-Keeps (query-Keeps (environment_full_of invite.row.environment_id)) welcome-Keeps))

first_row-In :
    (xs : List EnvironmentUser) (o : Invite) → first_row bare_invite xs ≡ some o → In o.row xs
unfolding first_row
first_row-In [] o h = cc
first_row-In (x ∷ xs) o h = inl (ap (λ i. i.row) (sym (some_injective h)))
  where
    some_injective : {a b : Invite} → ◌≡◌ {A = Option Invite} (some a) (some b) → a ≡ b
    some_injective p = cc

pub accept-Keeps : (requester : User) (code : String) → Keeps validity (accept_route requester code)
unfolding accept_route ◌>>=◌ invite_of_code query
accept-Keeps requester code = record {
  run = λ w v. elim (Option-cases (invite_of_code code w.tables)) [
    | inl e ↦ rw e v
    | inr (invite, e) ↦ elim (Bool-cases (invite.row.user_id == requester.id)) [
      | inl p ↦ rw e (
          rw p (
            accept_found_valid invite w
              ((In-select (λ m. str_eq m.invite_code code) w.tables.members invite.row).0 (
                first_row-In (select (λ m. str_eq m.invite_code code) w.tables.members) invite e)).0
              v))
      | inr p ↦ rw e (rw p v)
    ]
  ];
}

-- ===== src/Service/InviteRoutes.antt =====
-- service/src/routes/environment-invite.ts: inviting, withdrawing, promoting and accepting.

pub mod Validity
use lil_bobby_tables_my_crt.Common.Tests.{
  ℕ, ◌+◌, String, Bool, not, Option, none, some, ◌++◌, str_eq, ◌==◌, if◌then◌else◌, codes,
}
use lil_bobby_tables_my_crt.Common.Lists.{head, select}
use lil_bobby_tables_my_crt.Common.Exec.{Result, ok, throw}
use lil_bobby_tables_my_crt.Common.Action.{◌>>=◌, ◌>>◌, pure, raise}
use lil_bobby_tables_my_crt.Common.Digits.{decimal}
use lil_bobby_tables_my_crt.Service.Tables.{User, Tables}
use lil_bobby_tables_my_crt.Service.Http.{
  Failure, http_error, other_error, slack, Handler, fail, fail_with, required, send, query,
}
use lil_bobby_tables_my_crt.Service.EnvironmentDao.{
  Environment, EnvironmentFull, get_environment, get_environment_full,
}
use lil_bobby_tables_my_crt.Service.InviteDao.{
  Invite, EnvironmentMember, get_user_membership, get_invite, get_invite_by_code, invite_user,
  del_invite, promote_to_admin, accept_invite,
}
use lil_bobby_tables_my_crt.Service.CaptureRoutes.{not_found}

-- `Environment ${environmentId} does not exist`
abbrev pub unknown_environment : ℕ → Failure
unknown_environment id =
    http_error 404 (some (codes "Environment " ++ (decimal id ++ codes " does not exist")))

-- `userDao.getUser(email)`
abbrev pub user_of : String → Tables → Option User
user_of email t = head (select (λ u. str_eq u.email email) t.users)

abbrev pub cannot_invite : EnvironmentMember → ℕ → Option Failure
cannot_invite m id =
    if not m.is_member
    then some (unknown_environment id)
    else (if not m.is_admin
        then some (http_error 403 (some (codes "Only environment administrators can invite")))
        else none)

unfoldable pub unless : {A : Type 0} → Option Failure → Handler A → Handler A
unfolding raise
unless none handler = handler
unless (some e) handler = raise e

-- The end of the route: the invitation, whose code goes to the environment's channel. `invite!.inviteCode`
-- of no invitation throws.
unfoldable pub announce : Environment → Option Invite → Handler Invite
unfolding raise send pure
announce environment none = raise (other_error (codes "Cannot read property 'inviteCode' of null"))
announce environment (some invite) = do send (slack environment.id); pure invite

-- `POST /invites`, with the random invite code
unfoldable pub invite_route : String → User → ℕ → String → Bool → Handler Invite
unfolding get_environment get_user_membership invite_user announce required query unless
invite_route code requester environment_id user_email is_admin = do
  environment ← get_environment environment_id >>= required (unknown_environment environment_id)
  m ← get_user_membership requester environment
  unless (cannot_invite m environment_id) (do
    user ←
        query (user_of user_email)
        >>= required
            (http_error 400 (some (codes "User " ++ (codes user_email ++ codes " does not exist"))))
    invite ← invite_user code environment user is_admin
    announce environment invite)

-- `DELETE /invites/:id`
unfoldable pub withdraw_route : User → ℕ → Handler (Unit {0})
unfolding get_invite del_invite required fail
withdraw_route requester id = do
  invite ← get_invite id >>= required not_found
  (if not (invite.row.user_id == requester.id) then fail 401 else del_invite id)

-- `PUT /invites/promote`
unfoldable pub promote_route : User → ℕ → Handler (Unit {0})
unfolding get_invite get_environment get_user_membership promote_to_admin required send fail
promote_route requester env_user_id = do
  env_user ← get_invite env_user_id >>= required not_found
  environment ←
      get_environment env_user.row.environment_id
      >>= required (http_error 404 (some (codes "Environment does not exist")))
  m ← get_user_membership requester environment
  (if m.is_admin then (promote_to_admin env_user_id >> send (slack environment.id)) else fail 401)

-- `try { await inviteDao.acceptInvite(invite) } catch`
unfoldable pub accept_or_conflict : Invite → Handler (Unit {0})
unfolding accept_invite
accept_or_conflict invite w = let r = accept_invite invite w in (expired r.0, r.1)
  where
    expired : Result Failure (Unit {0}) → Result Failure (Unit {0})
    expired (ok u) = ok u
    expired (throw e) = throw (http_error 409 (some (codes "Invitation has expired")))

-- The answer; `environment!.envName` of no environment throws.
unfoldable pub welcome : Option EnvironmentFull → Handler EnvironmentFull
unfolding raise send pure
welcome none = raise (other_error (codes "Cannot read property 'envName' of null"))
welcome (some environment) = do send (slack environment.id); pure environment

unfoldable pub accept_found : Invite → Handler EnvironmentFull
unfolding accept_or_conflict get_environment_full welcome fail_with
accept_found invite =
    if invite.row.accepted then fail_with 409 (codes "Invite has already been accepted") else do
      accept_or_conflict invite
      environment ← get_environment_full invite.row.environment_id
      welcome environment

-- `PUT /invites/accept`
unfoldable pub accept_route : User → String → Handler EnvironmentFull
unfolding get_invite_by_code accept_found required fail
accept_route requester code = do
  invite ← get_invite_by_code code >>= required not_found
  (if not (invite.row.user_id == requester.id) then fail 404 else accept_found invite)

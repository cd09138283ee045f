-- ===== src/Service/InviteRoutes/Validity/Requests.antt =====
-- Sequences of requests to the routes for invitations.
use lil_bobby_tables_my_crt.Common.Tests.{ℕ, ◌+◌, String, Bool, List, [], ◌∷◌}
use lil_bobby_tables_my_crt.Service.Tables.{User}
use lil_bobby_tables_my_crt.Service.Http.{World}
use lil_bobby_tables_my_crt.Service.InviteDao.Deadline.{Valid}
use lil_bobby_tables_my_crt.Service.InviteRoutes.{
  invite_route, withdraw_route, promote_route, accept_route,
}
use lil_bobby_tables_my_crt.Service.InviteRoutes.Validity.{
  invite-Keeps, withdraw-Keeps, promote-Keeps, accept-Keeps,
}

-- A request to the routes, or time that passes. The user is the one whose session the request has.
pub data Request : Type 0 where
  invite : String → User → ℕ → String → Bool → Request
  withdraw : User → ℕ → Request
  promote : User → ℕ → Request
  accept : User → String → Request
  wait : ℕ → Request

unfoldable pub serve : Request → World → World
unfolding invite_route withdraw_route promote_route accept_route
serve (invite code user id email b) w = (invite_route code user id email b w).1
serve (withdraw user id) w = (withdraw_route user id w).1
serve (promote user id) w = (promote_route user id w).1
serve (accept user code) w = (accept_route user code w).1
serve (wait n) w = record w { now = w.now + n }

unfoldable pub serve_all : List Request → World → World
serve_all [] w = w
serve_all (r ∷ rs) w = serve_all rs (serve r w)

serve-Valid : (r : Request) (w : World) → Valid w.tables → Valid (serve r w).tables
unfolding serve
serve-Valid (invite code user id email b) w = (invite-Keeps code user id email b).run w
serve-Valid (withdraw user id) w = (withdraw-Keeps user id).run w
serve-Valid (promote user id) w = (promote-Keeps user id).run w
serve-Valid (accept user code) w = (accept-Keeps user code).run w
serve-Valid (wait n) w = λ v. v

-- From members in good order, any sequence of requests, answered with success or with an error, leads to
-- members in good order: their ids differ and stay below the counter, and each invitation that is
-- accepted was accepted at most a day after it was made.
pub serve_all-Valid :
    (rs : List Request) (w : World) → Valid w.tables → Valid (serve_all rs w).tables
unfolding serve_all
serve_all-Valid [] w v = v
serve_all-Valid (r ∷ rs) w v = serve_all-Valid rs (serve r w) (serve-Valid r w v)

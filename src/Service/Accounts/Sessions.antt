-- ===== src/Service/Accounts/Sessions.antt =====
-- A session that was idle for too long.
use lil_bobby_tables_my_crt.Common.Tests.{
  ℕ, ◌+◌, ◌<◌, String, ◌≡◌, refl, inl, inr, Bool, true, false, Option, none, some, List, arith,
  str_eq, Bool-cases, Option-cases,
}
use lil_bobby_tables_my_crt.Common.Lists.{All, head-select}
use lil_bobby_tables_my_crt.Common.Exec.{ok}
use lil_bobby_tables_my_crt.Common.Action.{◌>>=◌, pure}
use lil_bobby_tables_my_crt.Service.Tables.{User}
use lil_bobby_tables_my_crt.Service.Tables.Rows.{All-In}
use lil_bobby_tables_my_crt.Service.Http.{World, query}
use lil_bobby_tables_my_crt.Service.UserDao.{is_text, password_row}
use lil_bobby_tables_my_crt.Service.SessionDao.{clear_session, user_of_token, get_user_with_token}
use lil_bobby_tables_my_crt.Service.Session.{
  is_expired, known_session, check_user, session_middleware,
}
use lil_bobby_tables_my_crt.Service.UserRoutes.{Bcrypt}
use lil_bobby_tables_my_crt.Service.Accounts.{Event, serve_all}
use lil_bobby_tables_my_crt.Service.Accounts.Kept.{Good, Closed}
use lil_bobby_tables_my_crt.Service.Accounts.Kept.Routes.{EventDraws, serve_all-Good}

-- The account has no session of the token, or one that has expired.
abbrev pub Idle : String → ℕ → ℕ → User → Type 0
Idle token duration now u =
    is_text u.session_token token ≡ true → is_expired duration now u.last_token_check ≡ true

-- The token is another one.
abbrev pub Other : String → String → Type 0
Other token t = str_eq t token ≡ false

abbrev pub Whatever : String → Type 0
Whatever t = Unit

later :
    (duration now k : ℕ) (o : Option ℕ)
    → is_expired duration now o ≡ true
    → is_expired duration (now + k) o ≡ true
later duration now k none h = refl
later duration now k (some check) h = ground (arith, h)

Idle-Closed :
    (token : String) (duration : ℕ) → Closed (Idle token duration) duration (Other token) Whatever
Idle-Closed token duration = record {
  passes = λ n k u h p. later duration n k u.last_token_check (h p);
  clears = λ n u h p. refl;
  begins = λ n t u other h p. cc;
  checks = λ n t u holds fresh h p. let old = h p in cc;
  asks = λ n t u _ h. h;
  sets = sets;
  starts = λ n email hash id p. refl;
}
  where
    sets :
        (n : ℕ) (hash : String) (resets : Bool) (u : User)
        → 0 < n
        → Idle token duration n u
        → Idle token duration n (password_row hash resets n u)
    sets n hash true u lt h = h
    sets n hash false u lt h = h

not_opened :
    (token : String) (duration : ℕ) (w : World)
    → Good (Idle token duration) w
    → (session_middleware duration (some token) w).0 ≡ ok none
unfolding session_middleware ◌>>=◌ get_user_with_token query check_user pure known_session
    clear_session user_of_token
not_opened token duration w g = elim (Bool-cases (str_eq token "")) [
  | inl e ↦ rw e refl
  | inr e ↦ rw e (elim (Option-cases (user_of_token token w.tables)) [
    | inl none_found ↦ rw none_found refl
    | inr (user, found) ↦
        let h = head-select (λ u. is_text u.session_token token) w.tables.users user found in
        let idle = All-In (Idle token duration w.now) w.tables.users user g.each h.0 h.1 in
        rw found (rw idle refl)
  ])
]

-- Whoever asks, and with whatever cookies: once the session of a token was not used for longer than its
-- duration, or there is none, over any sequence of requests in which no login draws the token again, a
-- request with the token has no user. Nothing else is assumed of the accounts than different ids below
-- the counter.
pub session_middleware-Idle :
    (b : Bcrypt) (duration : ℕ) (token : String) (events : List Event) (w : World)
    → Good (Idle token duration) w
    → All (EventDraws (Other token) Whatever) events
    → (session_middleware duration (some token) (serve_all b duration events w)).0 ≡ ok none
session_middleware-Idle b duration token events w g draws =
    not_opened token duration (serve_all b duration events w)
      (serve_all-Good (Idle-Closed token duration) b events w draws g)

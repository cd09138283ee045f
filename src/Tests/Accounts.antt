-- ===== src/Tests/Accounts.antt =====
-- Two accounts, one of which forgot its password.
use lil_bobby_tables_my_crt.Common.Tests.{
  ◌+◌, ◌≡◌, refl, sym, ap, ◌∙◌, inl, inr, Bool, true, false, none, some, List, [], ◌∷◌, arith,
  str_eq, eq_refl,
}
use lil_bobby_tables_my_crt.Common.Lists.{select, In}
use lil_bobby_tables_my_crt.Common.Action.{◌>>=◌}
use lil_bobby_tables_my_crt.Common.Exec.{ok, throw}
use lil_bobby_tables_my_crt.Service.Http.{query, World, Failure}
use lil_bobby_tables_my_crt.Service.UserDao.{
  user_of_key, user_of_reset_token, PublicUser, public, is_text,
}
use lil_bobby_tables_my_crt.Service.Tables.{User}
use lil_bobby_tables_my_crt.Service.Session.{session_middleware}
use lil_bobby_tables_my_crt.Service.UserRoutes.{Bcrypt, AcceptsOwn, login_route}
use lil_bobby_tables_my_crt.Service.UserRoutes.Passwords.{reset_route}
use lil_bobby_tables_my_crt.Service.Accounts.{
  Event, request, wait, users, me, login, forgot, serve_all,
}
use lil_bobby_tables_my_crt.Service.Accounts.Kept.{Good}
use lil_bobby_tables_my_crt.Service.Accounts.Sessions.{Idle, session_middleware-Idle}
use lil_bobby_tables_my_crt.Service.Accounts.Resets.{WellKept, OneHolder, ResetBy, reset_once}
use lil_bobby_tables_my_crt.Service.Accounts.Logins.{
  login_route-reset_route, session_middleware-login_route,
}
use lil_bobby_tables_my_crt.Tests.Sample.{alice, bob, small, world}

-- Passwords that are kept as they are.
abbrev plain : Bcrypt
plain = record { hash = λ salt p. p; compare = str_eq }

plain-AcceptsOwn : AcceptsOwn plain
plain-AcceptsOwn salt p = eq_refl p

abbrev forgetful : User
forgetful = record bob {
  session_token = some "old";
  last_token_check = some 10;
  reset_token = some "key";
  reset_created_at = some 50;
}

abbrev home : World
home = record world { tables = record small { users = alice ∷ forgetful ∷ [] } }

abbrev events : List Event
events =
    request (some "old") me
    ∷ wait 5
    ∷ request none (login "new" "alice" "alice*")
    ∷ request (some "new") users
    ∷ request none (forgot "other" "bob")
    ∷ []

home-Good : Good (Idle "old" 60) home
home-Good = record {
  started = omega arith;
  distinct = (((λ e. omega (arith, e)), tt), (tt, tt));
  below = (omega arith, (omega arith, tt));
  each = ((λ p. cc), ((λ p. refl), tt));
}

session_middleware-Idle_example :
    (session_middleware 60 (some "old") (serve_all plain 60 events home)).0 ≡ ok none
session_middleware-Idle_example =
    session_middleware-Idle plain 60 "old" events home home-Good (tt, (tt, (refl, (tt, (tt, tt)))))

home-WellKept : WellKept home
home-WellKept = record {
  started = omega arith;
  distinct = (((λ e. omega (arith, e)), tt), (tt, tt));
  below = (omega arith, (omega arith, tt));
  each = (tt, (tt, tt));
}

alice_has_none : (u : User) → u ≡ alice → is_text u.reset_token "key" ≡ true → ⊥
alice_has_none u e p =
    let h : ◌≡◌ {A = Bool} false true = sym (ap (λ x. is_text x.reset_token "key") e) ∙ p in cc

home-OneHolder : OneHolder "key" home
home-OneHolder u v (inl e) j p q = absurd (alice_has_none u e p)
home-OneHolder u v (inr i) (inl f) p q = absurd (alice_has_none v f q)
home-OneHolder u v (inr (inl e)) (inr (inl f)) p q = e ∙ sym f
home-OneHolder u v (inr (inl e)) (inr (inr i)) p q = absurd i
home-OneHolder u v (inr (inr i)) (inr j) p q = absurd i

home_reset : (reset_route plain 0 "key" "fresh" "fresh" home).0 ≡ ok tt
unfolding reset_route ◌>>=◌ query user_of_reset_token select
home_reset = refl

reset_once_example :
    let v = (reset_route plain 0 "key" "fresh" "fresh" home).1 in
    let later = serve_all plain 60 events v in
    ResetBy plain 0 "key" "fresh" "fresh" home v
    × ((e : Failure) × (reset_route plain 1 "key" "again" "again" later ≡ (throw e, later)))
reset_once_example =
    reset_once plain 60 0 "key" "fresh" "fresh" home events 1 "again" "again" home-WellKept
      home-OneHolder home_reset (tt, (tt, (tt, (tt, (refl, tt)))))

login_route-reset_route_example :
    (user : User) × (holder : PublicUser) × In user home.tables.users
    × (is_text user.reset_token "key" ≡ true)
    × (holder.email ≡ user.email)
    × ((login_route plain "cookie" user.email "fresh"
          (reset_route plain 0 "key" "fresh" "fresh" home).1).0
        ≡ ok (holder, "cookie"))
login_route-reset_route_example =
    login_route-reset_route plain 0 "key" "fresh" "fresh" "cookie" home plain-AcceptsOwn
      (omega arith, (omega arith, tt)) home_reset

home_login : (login_route plain "cookie" "alice" "alice*" home).0 ≡ ok (public alice, "cookie")
unfolding login_route ◌>>=◌ query user_of_key select
home_login = refl

session_middleware-login_route_example :
    let v = (login_route plain "cookie" "alice" "alice*" home).1 in
    (u : User) × (u.id ≡ 1)
    × (u.last_token_check ≡ some 160)
    × ((session_middleware 60 (some "cookie") (record v { now = v.now + 60 })).0 ≡ ok (some u))
session_middleware-login_route_example =
    session_middleware-login_route plain 60 "cookie" "alice" "alice*" (public alice) home 60
      home_login (refl, (refl, tt)) (λ e. cc) (omega arith) (omega arith)

-- ===== src/Service/Accounts/Opened.antt =====
-- The session that a login opens (session-dao.ts, session.ts): what it finds and marks.
use lil_bobby_tables_my_crt.Common.Tests.{
  eq_self, ℕ, ◌+◌, ◌≤◌, ◌<◌, String, ◌≡◌, refl, ap, ◌∙◌, ◌≢◌, inl, inr, true, false, some, List, [],
  ◌∷◌, map, arith, str_eq, eq_iff, eq_refl, ◌==◌, Bool-cases, Option-cases,
}
use lil_bobby_tables_my_crt.Common.Lists.{head, select, In, All, head-select, found_of_In}
use lil_bobby_tables_my_crt.Common.Exec.{Result, ok, throw}
use lil_bobby_tables_my_crt.Common.Action.{◌>>=◌, pure, raise}
use lil_bobby_tables_my_crt.Service.Tables.{User, update_where}
use lil_bobby_tables_my_crt.Service.Tables.Rows.{head-update_where}
use lil_bobby_tables_my_crt.Service.Http.{World, Failure, query, execute, fail_with, required}
use lil_bobby_tables_my_crt.Service.UserDao.{
  PublicUser, public, user_of_key, get_user_with_hash, by_email, is_user, is_text,
}
use lil_bobby_tables_my_crt.Service.SessionDao.{
  begin_session, begun, checked, get_user_with_token, user_of_token, update_session,
  get_session_for_user,
}
use lil_bobby_tables_my_crt.Service.Session.{
  create_active_session, is_expired, known_session, check_user, session_middleware,
}
use lil_bobby_tables_my_crt.Service.UserRoutes.{Bcrypt, login_route, session_or_error}

selected :
    (token : String) (now id : ℕ) (users : List User)
    → All (λ u. is_text u.session_token token ≡ false) users
    → select
        (λ u. is_text u.session_token token)
        (update_where (λ u. u.id == id) (begun token now) users)
      ≡ map (begun token now) (select (λ u. u.id == id) users)
unfolding select update_where
selected token now id [] h = refl
selected token now id (u ∷ users) (p, h) = elim (Bool-cases (u.id == id)) [
  | inl e ↦
      rw e (rw (eq_refl token) (ap (λ us. begun token now u ∷ us) (selected token now id users h)))
  | inr e ↦ rw e (rw p (selected token now id users h))
]

-- The first account that has the token after it was drawn for a user.
pub begun_first :
    (token : String) (id : ℕ) (w : World) (user : User)
    → In user w.tables.users
    → user.id ≡ id
    → All (λ u. is_text u.session_token token ≡ false) w.tables.users
    → (u : User) × (u.id ≡ id)
      × (u.last_token_check ≡ some w.now)
      × (is_text u.session_token token ≡ true)
      × (user_of_token token (begin_session id token w).1.tables ≡ some u)
unfolding user_of_token begin_session execute
begun_first token id w user i same fresh =
    let f = found_of_In (λ u. u.id == id) w.tables.users user i (ground (arith, same)) in
    let first = selected token w.now id w.tables.users fresh in
    (
      begun token w.now f.0,
      ground (arith, f.3),
      refl,
      eq_refl token,
      rw first (mapped (select (λ u. u.id == id) w.tables.users) f.0 f.1),
    )
  where
    mapped :
        (us : List User) (u : User)
        → head us ≡ some u
        → head (map (begun token w.now) us) ≡ some (begun token w.now u)
    mapped [] u h = cc
    mapped (x ∷ us) u h = cc

-- A request with a token that an account was checked with at most the duration before.
pub known_opens :
    (duration : ℕ) (token : String) (w : World) (user : User) (check : ℕ)
    → user_of_token token w.tables ≡ some user
    → user.last_token_check ≡ some check
    → 0 < check
    → w.now ≤ check + duration
    → (u : User) × (u.id ≡ user.id)
      × ((known_session duration token user w).0 ≡ ok (some u))
      × (u.last_token_check ≡ some w.now)
unfolding known_session ◌>>=◌ update_session execute get_session_for_user query get_user_with_token
    user_of_token pure
known_opens duration token w user check found last positive le =
    let e : is_expired duration w.now user.last_token_check ≡ false =
      rw last (ground (arith, positive, le)) in
    let own : (user.id == user.id) ≡ true = eq_self user.id in
    let next =
      head-update_where (λ u. u.id == user.id) (checked w.now) (λ u. is_text u.session_token token)
        (λ u. refl) w.tables.users user found in
    (checked w.now user, refl, rw e (ap (λ o. ok o) (next ∙ rw own refl)), refl)

pub session_known :
    (duration : ℕ) (token : String) (w : World) (user u : User)
    → user_of_token token w.tables ≡ some user
    → token ≢ ""
    → (known_session duration token user w).0 ≡ ok (some u)
    → (session_middleware duration (some token) w).0 ≡ ok (some u)
unfolding session_middleware ◌>>=◌ get_user_with_token query check_user
session_known duration token w user u found full known = elim (Bool-cases (str_eq token "")) [
  | inl e ↦ absurd (full ((eq_iff token "").0 e))
  | inr e ↦ rw e (rw found known)
]

pub login_ok :
    (b : Bcrypt) (token email password : String) (w : World) (holder : PublicUser)
    → (login_route b token email password w).0 ≡ ok (holder, token)
    → (user : User) × In user w.tables.users
      × (user.id ≡ holder.id)
      × ((login_route b token email password w).1 ≡ (begin_session user.id token w).1)
unfolding login_route ◌>>=◌ get_user_with_hash query user_of_key required session_or_error
    create_active_session begin_session execute pure raise fail_with
login_ok b token email password w holder done =
    elim (Option-cases (head (select (is_user (by_email email)) w.tables.users))) [
      | inl e ↦ absurd (thrown (rw e at done))
      | inr (user, e) ↦ elim (Bool-cases (b.compare password user.password_hash)) [
        | inr p ↦ absurd (thrown (rw (e, p) at done))
        | inl p ↦ elim (Bool-cases (user.id == 0)) [
          | inl z ↦ absurd (thrown (rw (e, p, z) at done))
          | inr z ↦ (
            user,
            (head-select (is_user (by_email email)) w.tables.users user e).0,
            returned user (rw (e, p, z) at done),
            rw e (rw p (rw z refl)),
          )
        ]
      ]
    ]
  where
    thrown :
        {e : Failure}
        → ◌≡◌ {A = Result Failure (PublicUser × String)} (throw e) (ok (holder, token))
        → ⊥
    thrown p = cc

    returned :
        (user : User)
        → ◌≡◌ {A = Result Failure (PublicUser × String)}
            (ok (public user, token))
            (ok (holder, token))
        → user.id ≡ holder.id
    returned user p = ap (λ h. h.id) (same p)
      where
        same :
            {x y : PublicUser}
            → ◌≡◌ {A = Result Failure (PublicUser × String)} (ok (x, token)) (ok (y, token))
            → x ≡ y
        same q = cc

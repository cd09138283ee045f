-- ===== src/Service/Accounts/Resets.antt =====
-- A token that resets a password serves once, and the new password then opens the account.
use lil_bobby_tables_my_crt.Common.Tests.{
  ℕ, ◌+◌, ◌<◌, String, ◌≡◌, refl, sym, ap, ◌∙◌, ◌⊎◌, inl, inr, Bool, true, false, Option, none,
  some, List, arith, str_eq, eq_refl, Bool-cases, Option-cases,
}
use lil_bobby_tables_my_crt.Common.Lists.{head, select, In, All, head-select}
use lil_bobby_tables_my_crt.Common.Exec.{Result, ok, throw}
use lil_bobby_tables_my_crt.Common.Action.{◌>>=◌, raise}
use mathlib.Core.Bool.{true≢false}
use lil_bobby_tables_my_crt.Service.Tables.{User}
use lil_bobby_tables_my_crt.Service.Tables.Rows.{
  All-In, All-update_where, Distinct-update_where, All-update_where_split,
}
use lil_bobby_tables_my_crt.Service.Http.{World, Failure, query, execute, fail_with}
use lil_bobby_tables_my_crt.Service.UserDao.{
  by_email, is_user, is_text, password_row, update_user_password, user_of_reset_token,
  get_user_by_reset_token,
}
use lil_bobby_tables_my_crt.Service.UserRoutes.{Bcrypt}
use lil_bobby_tables_my_crt.Service.UserRoutes.Passwords.{
  is_used, is_recent, reset_found, reset_route,
}
use lil_bobby_tables_my_crt.Service.Accounts.{Event, serve_all}
use lil_bobby_tables_my_crt.Service.Accounts.Kept.{Good, Closed}
use lil_bobby_tables_my_crt.Service.Accounts.Kept.Routes.{EventDraws, serve_all-Good}
use lil_bobby_tables_my_crt.Service.Accounts.Sessions.{Other, Whatever}

-- The account has no reset token of this text, or one that was used or is an hour old.
abbrev pub Spent : String → ℕ → User → Type 0
Spent token now u =
    is_text u.reset_token token ≡ true
    → (is_used u.reset_used_at ≡ true) ⊎ (is_recent now u.reset_created_at ≡ false)

-- At most one account has the token.
abbrev pub OneHolder : String → World → Type 0
OneHolder token w =
    (u v : User)
    → In u w.tables.users
    → In v w.tables.users
    → is_text u.reset_token token ≡ true
    → is_text v.reset_token token ≡ true
    → u ≡ v

older : (now k : ℕ) (o : Option ℕ) → is_recent now o ≡ false → is_recent (now + k) o ≡ false
older now k none h = refl
older now k (some created) h = ground (arith, h)

set_password :
    (token : String) (n : ℕ) (hash : String) (resets : Bool) (u : User)
    → 0 < n
    → Spent token n u
    → Spent token n (password_row hash resets n u)
set_password token n hash true u lt h = λ p. inl (ground (arith, lt))
set_password token n hash false u lt h = h

Spent-Closed :
    (token : String) (duration : ℕ) → Closed (Spent token) duration Whatever (Other token)
Spent-Closed token duration = record {
  passes = λ n k u h p. elim (h p) [
    | inl used ↦ inl used
    | inr old ↦ inr (older n k u.reset_created_at old)
  ];
  clears = λ n u h. h;
  begins = λ n t u _ h. h;
  checks = λ n t u holds fresh h. h;
  asks = λ n t u other h p. cc;
  sets = set_password token;
  starts = λ n email hash id p. cc;
}

-- The state in which the accounts are before a reset.
abbrev pub WellKept : World → Type 0
WellKept = Good (λ n u. Unit)

-- What a reset that succeeds has found, and what it does.
abbrev pub ResetBy : Bcrypt → ℕ → String → String → String → World → World → Type 0
ResetBy b salt token new again w v =
    (user : User) × In user w.tables.users
    × (is_text user.reset_token token ≡ true)
    × (is_used user.reset_used_at ≡ false)
    × (is_recent w.now user.reset_created_at ≡ true)
    × (b.compare again (b.hash salt new) ≡ true)
    × (v ≡ (update_user_password (by_email user.email) (b.hash salt new) true w).1)

reset_found-ok :
    (hash : String) (matches : Bool) (o : Option User) (w : World)
    → (reset_found hash matches o w).0 ≡ ok tt
    → (user : User) × (o ≡ some user)
      × (is_used user.reset_used_at ≡ false)
      × (is_recent w.now user.reset_created_at ≡ true)
      × (matches ≡ true)
      × ((reset_found hash matches o w).1
          ≡ (update_user_password (by_email user.email) hash true w).1)
unfolding reset_found fail_with
reset_found-ok hash matches none w h = cc
reset_found-ok hash matches (some user) w h = elim (Bool-cases (is_used user.reset_used_at)) [
  | inl e ↦ absurd (conflict (rw e at h))
  | inr used ↦ elim (Bool-cases (is_recent w.now user.reset_created_at)) [
    | inl recent ↦ elim (Bool-cases matches) [
      | inl m ↦ (user, refl, used, recent, m, rw used (rw recent (rw m refl)))
      | inr m ↦ absurd (conflict (rw (used, recent, m) at h))
    ]
    | inr recent ↦ absurd (conflict (rw (used, recent) at h))
  ]
]
  where
    conflict : {e : Failure} → ◌≡◌ {A = Result Failure (Unit {0})} (throw e) (ok tt) → ⊥
    conflict p = cc

module _ (b : Bcrypt) (salt : ℕ) (token new again : String) (w : World) where
  pub reset_ok :
      (reset_route b salt token new again w).0 ≡ ok tt
      → ResetBy b salt token new again w (reset_route b salt token new again w).1
  unfolding reset_route ◌>>=◌ get_user_by_reset_token query user_of_reset_token
  reset_ok h =
      let hash = b.hash salt new in
      let o = head (select (λ u. is_text u.reset_token token) w.tables.users) in
      let r = reset_found-ok hash (b.compare again hash) o w h in
      let f = head-select (λ u. is_text u.reset_token token) w.tables.users r.0 r.1 in
      (r.0, f.0, f.1, r.2, r.3, r.4, r.5)

  after_reset :
      (user : User)
      → In user w.tables.users
      → is_text user.reset_token token ≡ true
      → WellKept w
      → OneHolder token w
      → Good (Spent token) (update_user_password (by_email user.email) (b.hash salt new) true w).1
  unfolding update_user_password execute
  after_reset user i holds g one =
      let hash = b.hash salt new in
      let test = is_user (by_email user.email) in
      let set = password_row hash true w.now in
      record {
        started = g.started;
        distinct = Distinct-update_where (λ u. u.id) test set (λ u. refl) w.tables.users g.distinct;
        below =
            All-update_where (λ u. u.id < w.tables.next_user) test set w.tables.users g.below
              (λ u j p. All-In (λ v. v.id < w.tables.next_user) w.tables.users u g.below j);
        each =
            All-update_where_split (Spent token w.now) test set w.tables.users
              (λ u j p q. inl (ground (arith, g.started)))
              (λ u j p q.
                let same = one user u i j holds q in
                absurd (
                  true≢false
                    (sym (eq_refl user.email) ∙ (ap (λ v. str_eq v.email user.email) same ∙ p))));
      }

refused :
    (b : Bcrypt) (salt : ℕ) (token new again : String) (w : World)
    → Good (Spent token) w
    → (e : Failure) × (reset_route b salt token new again w ≡ (throw e, w))
unfolding reset_route ◌>>=◌ get_user_by_reset_token query user_of_reset_token reset_found fail_with
    raise
refused b salt token new again w g =
    elim (Option-cases (head (select (λ u. is_text u.reset_token token) w.tables.users))) [
      | inl e ↦ rw e (_, refl)
      | inr (user, e) ↦
          let h = head-select (λ u. is_text u.reset_token token) w.tables.users user e in
          elim (All-In (Spent token w.now) w.tables.users user g.each h.0 h.1) [
            | inl used ↦ rw e (rw used (_, refl))
            | inr old ↦ elim (Bool-cases (is_used user.reset_used_at)) [
              | inl used ↦ rw e (rw used (_, refl))
              | inr unused ↦ rw e (rw unused (rw old (_, refl)))
            ]
          ]
    ]

-- A reset with a token that one account at most holds: it returns only if that account's token was
-- neither used nor an hour old and the two passwords agree, and then sets the password of its email.
-- After it, over any sequence of requests in which the token is not drawn again, a reset with
-- the token is refused and changes nothing.
pub reset_once :
    (b : Bcrypt) (duration salt : ℕ) (token new again : String) (w : World) (events : List Event)
    (salt' : ℕ) (new' again' : String)
    → WellKept w
    → OneHolder token w
    → (reset_route b salt token new again w).0 ≡ ok tt
    → All (EventDraws Whatever (Other token)) events
    → let v = (reset_route b salt token new again w).1 in
      let later = serve_all b duration events v in
      ResetBy b salt token new again w v
      × ((e : Failure) × (reset_route b salt' token new' again' later ≡ (throw e, later)))
reset_once b duration salt token new again w events salt' new' again' g one done draws =
    let r = reset_ok b salt token new again w done in
    let v = (reset_route b salt token new again w).1 in
    let spent : Good (Spent token) v =
      rw r.6 (after_reset b salt token new again w r.0 r.1 r.2 g one) in
    (
      r,
      refused b salt' token new' again' (serve_all b duration events v)
          (serve_all-Good (Spent-Closed token duration) b events v draws spent),
    )

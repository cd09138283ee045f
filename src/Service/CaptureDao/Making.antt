-- ===== src/Service/CaptureDao/Making.antt =====
-- What is read back of a capture that was made.
use lil_bobby_tables_my_crt.Common.Tests.{
  eq_self, ℕ, ◌<◌, ◌≡◌, refl, inl, inr, true, false, Option, some, List, [], ◌∷◌, ◌++◌, map, arith,
  ◌==◌, Bool-cases,
}
use lil_bobby_tables_my_crt.Common.Lists.{select-append, select, any, All}
use lil_bobby_tables_my_crt.Common.Exec.{ok}
use lil_bobby_tables_my_crt.Common.Action.{◌>>=◌}
use lil_bobby_tables_my_crt.Service.Tables.{
  User, CaptureRow, Tables, is_id, is_reference, join, first_row,
}
use lil_bobby_tables_my_crt.Service.Tables.Rows.{select-join}
use lil_bobby_tables_my_crt.Service.Http.{World, execute, query}
use lil_bobby_tables_my_crt.Service.CaptureDao.{
  NewCapture, new_capture_row, row_to_capture, with_capture, make_capture, capture_of,
}

select-below :
    (n : ℕ) (rows : List CaptureRow) → All (λ r. r.id < n) rows → select (λ c. c.id == n) rows ≡ []
unfolding select
select-below n [] h = refl
select-below n (r ∷ rows) (lt, h) = rw (differs r.id n lt) (select-below n rows h)
  where
    differs : (m k : ℕ) → m < k → (m == k) ≡ false
    differs m k p = ground (arith, p)

known :
    (m : ℕ) (users : List User) {user : User} {rest : List User}
    → select (λ u. m == u.id) users ≡ user ∷ rest
    → any (λ n. m == n) (map (λ u. u.id) users) ≡ true
unfolding select any
known m [] h = cc
known m (u ∷ users) h = elim (Bool-cases (m == u.id)) [
  | inl e ↦ rw e refl
  | inr e ↦ rw e (known m users (rw e at h))
]

read_back :
    (c : NewCapture) (t : Tables) (user : User) (rest : List User)
    → c.owner_id ≡ some user.id
    → select (λ u. user.id == u.id) t.users ≡ user ∷ rest
    → All (λ r. r.id < t.next_capture) t.captures
    → capture_of t.next_capture (with_capture c t)
      ≡ some (row_to_capture (some user.email) (new_capture_row c t.next_capture))
unfolding capture_of with_capture first_row join select
read_back c t user rest owner found below =
    let row = new_capture_row c t.next_capture in
    let test = λ (r : CaptureRow). r.id == t.next_capture in
    rw (select-join test (λ c u. is_id c.owner_id u.id) (t.captures ++ (row ∷ [])) t.users) (
      rw (select-append test t.captures (row ∷ [])) (
        rw (select-below t.next_capture t.captures below)
          (rw (eq_self t.next_capture) (rw owner (rw found refl)))))

-- If the ids of the captures are below the counter, a capture made for a user of the table is read
-- back as it was given, with the next id and the user's email; nothing but its row and the counter
-- changes.
pub make_capture_lem :
    (c : NewCapture) (w : World) (user : User) (rest : List User)
    → c.owner_id ≡ some user.id
    → select (λ u. user.id == u.id) w.tables.users ≡ user ∷ rest
    → All (λ r. r.id < w.tables.next_capture) w.tables.captures
    → make_capture c w ≡ (
      ok (some (row_to_capture (some user.email) (new_capture_row c w.tables.next_capture))),
      record w { tables = with_capture c w.tables },
    )
unfolding make_capture ◌>>=◌ execute query
make_capture_lem c w user rest owner found below =
    rw (reference c.owner_id owner) (rw (read_back c w.tables user rest owner found below) refl)
  where
    reference :
        (o : Option ℕ) → o ≡ some user.id → is_reference o (map (λ u. u.id) w.tables.users) ≡ true
    reference o e = rw e (known user.id w.tables.users found)

-- ===== src/Service/Creation/Mimics/Inserted.antt =====
-- A database reference and a replay that are inserted are read back (environment-dao.ts, replay-dao.ts).
use lil_bobby_tables_my_crt.Common.Tests.{
  ◌&&◌, Option, eq_self, ℕ, ◌<◌, String, ◌≡◌, refl, inl, inr, true, some, List, [], ◌∷◌, ◌++◌, map,
  ◌==◌, Bool-cases,
}
use lil_bobby_tables_my_crt.Common.Lists.{select, any, All}
use lil_bobby_tables_my_crt.Common.Exec.{ok}
use lil_bobby_tables_my_crt.Common.Action.{◌>>=◌}
use lil_bobby_tables_my_crt.Service.Tables.{
  is_reference, User, DbReference, ReplayRow, Tables, is_id, join, first_row,
}
use lil_bobby_tables_my_crt.Service.Http.{World, query, execute}
use lil_bobby_tables_my_crt.Service.ReplayDao.{
  make_replay, get_replay, replay_of, NewReplay, with_replay, new_replay_row, result_to_replay,
}
use lil_bobby_tables_my_crt.Service.Tables.Rows.{select-added, select-join}
use lil_bobby_tables_my_crt.Service.EnvironmentDao.Editing.{
  make_db_reference, with_db_reference, get_db_reference,
}

-- A new reference to a database is read back with the next id.
pub make_db_reference_lem :
    (name host : String) (w : World)
    → All (λ d. d.id < w.tables.next_database) w.tables.databases
    → make_db_reference name host w ≡ (
      ok (some (record { id = w.tables.next_database; name = name; host = host })),
      record w { tables = with_db_reference name host w.tables },
    )
unfolding make_db_reference ◌>>=◌ execute get_db_reference query with_db_reference
make_db_reference_lem name host w below =
    let row : DbReference = record { id = w.tables.next_database; name = name; host = host } in
    rw (select-added (λ (d : DbReference). d.id) w.tables.databases row below) refl

any-map-known :
    (m : ℕ) (users : List User) {user : User} {rest : List User}
    → select (λ u. m == u.id) users ≡ user ∷ rest
    → any (λ n. m == n) (map (λ u. u.id) users) ≡ true
unfolding select any
any-map-known m [] h = cc
any-map-known m (u ∷ users) h = elim (Bool-cases (m == u.id)) [
  | inl e ↦ rw e refl
  | inr e ↦ rw e (any-map-known m users (rw e at h))
]

replay_read_back :
    (r : NewReplay) (t : Tables) (user : User) (rest : List User)
    → r.owner_id ≡ some user.id
    → select (λ u. user.id == u.id) t.users ≡ user ∷ rest
    → All (λ x. x.id < t.next_replay) t.replays
    → replay_of t.next_replay (with_replay r t)
      ≡ some (result_to_replay (some user.email) (new_replay_row r t.next_replay))
unfolding replay_of with_replay first_row join select
replay_read_back r t user rest owner found below =
    let row = new_replay_row r t.next_replay in
    rw
      (select-join (λ (x : ReplayRow). x.id == t.next_replay) (λ x u. is_id x.owner_id u.id)
        (t.replays ++ (row ∷ [])) t.users)
      (rw (select-added (λ (x : ReplayRow). x.id) t.replays row below) (rw owner (rw found refl)))

pub database_known :
    (rows : List DbReference) (row : DbReference)
    → any (λ n. row.id == n) (map (λ d. d.id) (rows ++ (row ∷ []))) ≡ true
unfolding any
database_known [] row = rw (eq_self row.id) refl
database_known (d ∷ rows) row = elim (Bool-cases (row.id == d.id)) [
  | inl e ↦ rw e refl
  | inr e ↦ rw e (database_known rows row)
]

-- A replay for a user, a capture and a database of the tables is read back with the next id.
pub make_replay_lem :
    (r : NewReplay) (w : World) (user : User) (rest : List User) (capture_id db_id : ℕ)
    → r.owner_id ≡ some user.id
    → r.capture_id ≡ some capture_id
    → r.db_id ≡ some db_id
    → select (λ u. user.id == u.id) w.tables.users ≡ user ∷ rest
    → any (λ n. capture_id == n) (map (λ c. c.id) w.tables.captures) ≡ true
    → any (λ n. db_id == n) (map (λ d. d.id) w.tables.databases) ≡ true
    → All (λ x. x.id < w.tables.next_replay) w.tables.replays
    → make_replay r w ≡ (
      ok (some (result_to_replay (some user.email) (new_replay_row r w.tables.next_replay))),
      record w { tables = with_replay r w.tables },
    )
unfolding make_replay ◌>>=◌ execute get_replay query
make_replay_lem r w user rest capture_id db_id owner c d found captured based below =
    let back = replay_read_back r w.tables user rest owner found below in
    rw (references r.owner_id r.capture_id r.db_id owner c d) (rw back refl)
  where
    references :
        (o p q : Option ℕ)
        → o ≡ some user.id
        → p ≡ some capture_id
        → q ≡ some db_id
        → is_reference o (map (λ u. u.id) w.tables.users)
            && (is_reference p (map (λ c. c.id) w.tables.captures)
                && is_reference q (map (λ d. d.id) w.tables.databases))
          ≡ true
    references o p q e f g = rw e (
        rw f (rw g (rw (any-map-known user.id w.tables.users found) (rw captured (rw based refl)))))

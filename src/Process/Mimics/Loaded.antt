-- ===== src/Process/Mimics/Loaded.antt =====
-- The status of the replays of a mimic after its setup (mimic.ts, replay-manager.ts).
use lil_bobby_tables_my_crt.Common.Tests.{
  ℕ, String, ◌≡◌, refl, sym, ap, ◌∙◌, inl, inr, Bool, true, false, not, Option, none, some, List,
  [], ◌∷◌, arith, ◌==◌, if◌then◌else◌, Bool-cases, Option-cases, is_some,
}
use lil_bobby_tables_my_crt.Common.Lists.{head, select}
use lil_bobby_tables_my_crt.Common.Exec.{ok}
use lil_bobby_tables_my_crt.Common.Action.{◌>>=◌}
use lil_bobby_tables_my_crt.Data.{ChildProgramStatus, starting, failed}
use lil_bobby_tables_my_crt.Service.Tables.Rows.{select-join}
use lil_bobby_tables_my_crt.Service.Tables.{
  User, is_id, join, first_row, ReplayRow, DbReference, Tables, update_where,
}
use lil_bobby_tables_my_crt.Service.Http.{World, execute, query}
use lil_bobby_tables_my_crt.Service.CaptureDao.{new_reason}
use lil_bobby_tables_my_crt.Service.ReplayDao.{
  joined_to_replay, Replay, get_replay, replay_of, update_replays, update_replay_status,
}
use lil_bobby_tables_my_crt.Service.EnvironmentDao.Editing.{get_db_reference}
use lil_bobby_tables_my_crt.Process.Mimics.{
  connected, ReplayManager, load_one, load_replay, load_found, load_on, kept_if, reference_of,
  dont_panic,
}

-- The id and the status of each row.
abbrev pub Statuses : Type 0
Statuses = List (ℕ × ChildProgramStatus)

abbrev pub statuses : List ReplayRow → Statuses
statuses [] = []
statuses (r ∷ rows) = (r.id, r.status) ∷ statuses rows

abbrev pub set_status : ℕ → ChildProgramStatus → Statuses → Statuses
set_status id status [] = []
set_status id status (x ∷ xs) = (x.0, if x.0 == id then status else x.1) ∷ set_status id status xs

statuses-update_where :
    (id : ℕ) (status : ChildProgramStatus) (change : ReplayRow → ReplayRow)
    → ((r : ReplayRow) → (change r).id ≡ r.id)
    → ((r : ReplayRow) → (change r).status ≡ status)
    → (rows : List ReplayRow)
    → statuses (update_where (λ r. r.id == id) change rows) ≡ set_status id status (statuses rows)
unfolding update_where
statuses-update_where id status change same set [] = refl
statuses-update_where id status change same set (r ∷ rows) =
    let rest = statuses-update_where id status change same set rows in
    elim (Bool-cases (r.id == id)) [
      | inl e ↦ rw e (rw (same r) (rw (set r) (ap (λ xs. (r.id, status) ∷ xs) rest)))
      | inr e ↦ rw e (ap (λ xs. (r.id, r.status) ∷ xs) rest)
    ]

set_status-set_status :
    (id : ℕ) (first second : ChildProgramStatus) (xs : Statuses)
    → set_status id second (set_status id first xs) ≡ set_status id second xs
set_status-set_status id first second [] = refl
set_status-set_status id first second (x ∷ xs) =
    let rest = set_status-set_status id first second xs in
    elim (Bool-cases (x.0 == id)) [
      | inl e ↦ rw e (ap (λ ys. (x.0, second) ∷ ys) rest)
      | inr e ↦ rw e (ap (λ ys. (x.0, x.1) ∷ ys) rest)
    ]

-- Nothing differs but rows of replays.
abbrev pub OnlyReplays : World → World → Type 0
OnlyReplays v w =
    record v { tables = record v.tables { replays = [] } }
    ≡ record w { tables = record w.tables { replays = [] } }

-- The replays with other ids are found as before.
abbrev pub OthersFound : ℕ → World → World → Type 0
OthersFound id v w = (j : ℕ) → (j == id) ≡ false → replay_of j v.tables ≡ replay_of j w.tables

-- What the turn of one replay does, if it is loaded or not.
abbrev pub Turned : ℕ → Bool → World → World → Type 0
Turned id is_loaded w v =
    (statuses v.tables.replays
      ≡ set_status id (if is_loaded then starting else failed) (statuses w.tables.replays))
    × OnlyReplays v w
    × OthersFound id v w

select-update_where_other :
    (i j : ℕ) (change : ReplayRow → ReplayRow)
    → ((r : ReplayRow) → (change r).id ≡ r.id)
    → (j == i) ≡ false
    → (rows : List ReplayRow)
    → select (λ r. r.id == j) (update_where (λ r. r.id == i) change rows)
      ≡ select (λ r. r.id == j) rows
unfolding select update_where
select-update_where_other i j change same ne [] = refl
select-update_where_other i j change same ne (r ∷ rows) =
    let rest = select-update_where_other i j change same ne rows in
    elim (Bool-cases (r.id == i)) [
      | inl e ↦
          let other : (r.id == j) ≡ false = ground (arith, e, ne) in
          rw e (rw (same r) (rw other rest))
      | inr e ↦ elim (Bool-cases (r.id == j)) [
        | inl f ↦ rw e (rw f (ap (λ xs. r ∷ xs) rest))
        | inr f ↦ rw e (rw f rest)
      ]
    ]

replay_of-update_replays :
    (i j : ℕ) (change : ReplayRow → ReplayRow)
    → ((r : ReplayRow) → (change r).id ≡ r.id)
    → (j == i) ≡ false
    → (t : Tables) → replay_of j (update_replays i change t) ≡ replay_of j t
unfolding replay_of update_replays
replay_of-update_replays i j change same ne t =
    let on = λ (r : ReplayRow) (u : User). is_id r.owner_id u.id in
    let is_it = λ (r : ReplayRow). r.id == j in
    let rows = update_where (λ r. r.id == i) change t.replays in
    ap (first_row joined_to_replay) (
      select-join is_it on rows t.users
      ∙ (ap (λ rs. join on rs t.users) (select-update_where_other i j change same ne t.replays)
          ∙ sym (select-join is_it on t.replays t.users)))

update_replay_status_lem :
    (id : ℕ) (status : ChildProgramStatus) (reason : Option String) (w : World)
    → let v = (update_replay_status id status reason w).1 in
      (statuses v.tables.replays ≡ set_status id status (statuses w.tables.replays))
      × OnlyReplays v w
      × OthersFound id v w
unfolding update_replay_status execute update_replays
update_replay_status_lem id status reason w =
    let change =
      λ (r : ReplayRow). record r { status = status; reason = new_reason reason r.reason } in
    (
      statuses-update_where id status change (λ r. refl) (λ r. refl) w.tables.replays,
      refl,
      λ j ne. replay_of-update_replays id j change (λ r. refl) ne w.tables,
    )

failed_lem : (id : ℕ) (w : World) → Turned id false w (dont_panic id "Failed to load" w).1
unfolding dont_panic
failed_lem id w = update_replay_status_lem id failed (some "Failed to load") w

failed_again :
    (id : ℕ) (reason : String) (w : World)
    → Turned id false w (dont_panic id "Failed to load" (dont_panic id reason w).1).1
unfolding dont_panic
failed_again id reason w =
    let first = (dont_panic id reason w).1 in
    let u = update_replay_status_lem id failed (some reason) w in
    let again = failed_lem id first in
    (
      again.0
          ∙ (ap (set_status id failed) u.0
              ∙ set_status-set_status id failed failed (statuses w.tables.replays)),
      again.1 ∙ u.1,
      λ j ne. again.2 j ne ∙ u.2 j ne,
    )

abbrev pub kept : ℕ → Bool → Option ReplayManager
kept id true = some (record { id = id; has_started = false })
kept id false = none

module _ (rejects : DbReference → Option String) where
  abbrev connects_to : Option DbReference → Bool
  connects_to none = false
  connects_to (some db) = not (is_some (rejects db))

  abbrev has_target : Option ℕ → List DbReference → Bool
  has_target none databases = false
  has_target (some n) databases = connects_to (head (select (λ d. d.id == n) databases))

  abbrev pub has_replay : Option Replay → List DbReference → Bool
  has_replay none databases = false
  has_replay (some r) databases = has_target r.db_id databases

  -- There is such a replay, it has a database, and a query on that succeeds.
  abbrev pub is_loadable : ℕ → Tables → Bool
  is_loadable id t = has_replay (replay_of id t) t.databases

  -- The turn of one replay keeps it exactly if it can be loaded, and then gives it the status STARTING,
  -- and FAILED else. The statuses of the other replays, and all else, stay as they are.
  pub load_one_lem :
      (id : ℕ) (w : World)
      → (v : World) × (load_one rejects id w ≡ (ok (kept id (is_loadable id w.tables)), v))
        × Turned id (is_loadable id w.tables) w v
  unfolding load_one load_replay load_found load_on connected kept_if dont_panic reference_of
      get_replay get_db_reference query ◌>>=◌ update_replay_status execute
  load_one_lem id w =
      let panicked = (dont_panic id "Failed to load" w).1 in
      elim (Option-cases (replay_of id w.tables)) [
        | inl e ↦ rw e (panicked, refl, failed_lem id w)
        | inr (r, e) ↦ elim (Option-cases r.db_id) [
          | inl d ↦ rw e (rw d (panicked, refl, failed_lem id w))
          | inr (n, d) ↦ elim (Option-cases (head (select (λ x. x.id == n) w.tables.databases))) [
            | inl f ↦ rw e (rw d (rw f (panicked, refl, failed_lem id w)))
            | inr (db, f) ↦ elim (Option-cases (rejects db)) [
              | inl c ↦
                  let v = (update_replay_status id starting none w).1 in
                  rw e (rw d (rw f (rw c (v, refl, update_replay_status_lem id starting none w))))
              | inr (reason, c) ↦
                  let v = (dont_panic id "Failed to load" (dont_panic id reason w).1).1 in
                  rw e (rw d (rw f (rw c (v, refl, failed_again id reason w))))
            ]
          ]
        ]
      ]

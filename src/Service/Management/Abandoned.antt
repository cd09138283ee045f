-- ===== src/Service/Management/Abandoned.antt =====
-- What the start of the service makes of the replays in a state that only a living process has.
use lil_bobby_tables_my_crt.Common.Tests.{
  ◌↔◌, arith, if◌then◌else◌, eq_self, ◌≡◌, refl, sym, ap, ◌∙◌, inl, inr, Bool, true, false, none,
  some, List, [], ◌∷◌, map, ◌==◌, Bool-cases,
}
use lil_bobby_tables_my_crt.Common.Lists.{In-map, any, map_id, select, In, In-select}
use lil_bobby_tables_my_crt.Common.Exec.{Result, ok}
use lil_bobby_tables_my_crt.Common.Action.{◌>>=◌}
use mathlib.Core.Bool.{true≢false}
use lil_bobby_tables_my_crt.Service.Http.{Failure, World, execute, query}
use lil_bobby_tables_my_crt.Data.{
  ChildProgramStatus, scheduled, started, starting, running, stopping, done, failed,
}
use lil_bobby_tables_my_crt.Service.Tables.Rows.{Distinct, Distinct-eq}
use lil_bobby_tables_my_crt.Service.Tables.{ReplayRow, update_where}
use lil_bobby_tables_my_crt.Service.CaptureDao.{new_reason}
use lil_bobby_tables_my_crt.Service.ReplayDao.{
  Replay, result_to_replay, abandoned_replays, update_replays, is_launched,
}
use lil_bobby_tables_my_crt.Service.Management.{
  mark_abandoned, for_each, mark_abandoned_replays_as_failed,
}

abbrev pub mark : ReplayRow → ReplayRow
mark r = record r {
  status = failed;
  reason = new_reason (some "Replay was abandoned by server") r.reason;
}

abbrev done_at : World → Result Failure (Unit {0}) × World
done_at w = (ok tt, w)

-- What the marks of these replays make of the rows.
abbrev pub marked : List Replay → List ReplayRow → List ReplayRow
marked [] rows = rows
marked (x ∷ xs) rows = marked xs (update_where (λ r. r.id == x.id) mark rows)

marks :
    (xs : List Replay) (w : World)
    → for_each mark_abandoned xs w
      ≡ (ok tt, record w { tables = record w.tables { replays = marked xs w.tables.replays } })
unfolding for_each ◌>>=◌ mark_abandoned execute update_replays
marks [] w = refl
marks (x ∷ xs) w = marks xs (record w {
  tables = record w.tables { replays = update_where (λ r. r.id == x.id) mark w.tables.replays };
})

-- The states that only a living process has.
abbrev pub has_process : ChildProgramStatus → Bool
has_process started = true
has_process starting = true
has_process running = true
has_process stopping = true
has_process scheduled = false
has_process done = false
has_process failed = false

is_launched-has_process : (s : ChildProgramStatus) → is_launched s ≡ has_process s
is_launched-has_process started = refl
is_launched-has_process starting = refl
is_launched-has_process running = refl
is_launched-has_process stopping = refl
is_launched-has_process scheduled = refl
is_launched-has_process done = refl
is_launched-has_process failed = refl

-- A row is as before, or failed if it was in such a state.
abbrev pub abandon : ReplayRow → ReplayRow
abandon r =
    if has_process r.status
    then record r { status = failed; reason = some "Replay was abandoned by server" }
    else r

abbrev mark_if : List Replay → ReplayRow → ReplayRow
mark_if xs r = if any (λ x. r.id == x.id) xs then mark r else r

mark_if-update :
    (x : Replay) (xs : List Replay) (rows : List ReplayRow)
    → map (mark_if xs) (update_where (λ r. r.id == x.id) mark rows) ≡ map (mark_if (x ∷ xs)) rows
unfolding update_where any
mark_if-update x xs [] = refl
mark_if-update x xs (r ∷ rows) =
    let rest = mark_if-update x xs rows in
    elim (Bool-cases (r.id == x.id)) [
      | inl e ↦ elim (Bool-cases (any (λ y. r.id == y.id) xs)) [
        | inl p ↦ rw (e, p) (ap (λ l. mark r ∷ l) rest)
        | inr p ↦ rw (e, p) (ap (λ l. mark r ∷ l) rest)
      ]
      | inr e ↦ rw e (ap (λ l. mark_if xs r ∷ l) rest)
    ]

marked-map : (xs : List Replay) (rows : List ReplayRow) → marked xs rows ≡ map (mark_if xs) rows
unfolding any
marked-map [] rows = sym (map_id rows)
marked-map (x ∷ xs) rows =
    marked-map xs (update_where (λ r. r.id == x.id) mark rows) ∙ mark_if-update x xs rows

-- The replays that the query finds.
abbrev found : List ReplayRow → List Replay
found rows = map (result_to_replay none) (select (λ r. is_launched r.status) rows)

any-In :
    (test : Replay → Bool) (xs : List Replay)
    → (any test xs ≡ true) ↔ ((x : Replay) × In x xs × (test x ≡ true))
unfolding any
any-In test [] = ((λ h. absurd (true≢false (sym h))), λ h. absurd h.1)
any-In test (y ∷ xs) = elim (Bool-cases (test y)) [
  | inl e ↦ rw e ((λ h. (y, inl refl, e)), λ h. refl)
  | inr e ↦ rw e (
    (λ h. let r = (any-In test xs).0 h in (r.0, inr r.1, r.2)),
    λ h. (any-In test xs).1 (elim h.1 [
      | inl p ↦ absurd (true≢false (sym h.2 ∙ (ap test p ∙ e)))
      | inr j ↦ (h.0, j, h.2)
    ]),
  )
]

any-found :
    (rows : List ReplayRow) (r : ReplayRow)
    → Distinct (λ q. q.id) rows
    → In r rows
    → any (λ x. r.id == x.id) (found rows) ≡ has_process r.status
any-found rows r distinct i =
    let test : Replay → Bool = λ x. r.id == x.id in
    let listed = In-map (result_to_replay none) (select (λ q. is_launched q.status) rows) in
    let chosen = In-select (λ (q : ReplayRow). is_launched q.status) rows in
    elim (Bool-cases (has_process r.status)) [
      | inl h ↦
          (any-In test (found rows)).1 (
            result_to_replay none r,
            (listed (result_to_replay none r)).1
                (r, (chosen r).1 (i, is_launched-has_process r.status ∙ h), refl),
            eq_self r.id,
          )
          ∙ sym h
      | inr h ↦ elim (Bool-cases (any test (found rows))) [
        | inr p ↦ p ∙ sym h
        | inl p ↦
            let x = (any-In test (found rows)).0 p in
            let q = (listed x.0).0 x.1 in
            let s = (chosen q.0).0 q.1 in
            let same : r ≡ q.0 =
              Distinct-eq (λ z. z.id) rows r q.0 distinct i s.0
                (ground (arith, x.2, ap (λ z. z.id) q.2)) in
            absurd (
              true≢false (
                sym s.1
                ∙ (is_launched-has_process q.0.status
                    ∙ (ap (λ z. has_process z.status) (sym same) ∙ h))))
      ]
    ]

map_of_In :
    (f g : ReplayRow → ReplayRow) (rows : List ReplayRow)
    → ((r : ReplayRow) → In r rows → f r ≡ g r)
    → map f rows ≡ map g rows
map_of_In f g [] h = refl
map_of_In f g (r ∷ rows) h =
    rw (h r (inl refl)) (ap (λ l. g r ∷ l) (map_of_In f g rows (λ q i. h q (inr i))))

-- Where the database answers and the ids of the replays are different, the marking of abandoned replays
-- succeeds: each replay that was started, starting, running or stopping becomes failed with the
-- reason, every other replay and everything else stays as it was.
pub mark_abandoned_replays_as_failed_lem :
    (w : World)
    → Distinct (λ r. r.id) w.tables.replays
    → mark_abandoned_replays_as_failed w
      ≡ (ok tt, record w { tables = record w.tables { replays = map abandon w.tables.replays } })
unfolding mark_abandoned_replays_as_failed ◌>>=◌ query abandoned_replays
mark_abandoned_replays_as_failed_lem w distinct =
    let rows = w.tables.replays in
    marks (found rows) w
    ∙ ap (λ l. let v : World = record w { tables = record w.tables { replays = l } } in done_at v)
        (marked-map (found rows) rows
          ∙ map_of_In (mark_if (found rows)) abandon rows
              (λ r i. rw (any-found rows r distinct i) refl))

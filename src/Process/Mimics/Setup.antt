-- ===== src/Process/Mimics/Setup.antt =====
-- The replays that the setup of a mimic keeps, and their statuses (mimic.ts, replay-manager.ts).
use lil_bobby_tables_my_crt.Common.Tests.{
  ℕ, String, ◌≡◌, refl, sym, ap, ◌∙◌, inl, inr, Bool, false, ◌||◌, Option, List, [], ◌∷◌, arith,
  ◌==◌, if◌then◌else◌, Bool-cases,
}
use lil_bobby_tables_my_crt.Common.Lists.{select}
use lil_bobby_tables_my_crt.Common.Exec.{ok}
use lil_bobby_tables_my_crt.Common.Action.{◌>>=◌}
use lil_bobby_tables_my_crt.Data.{ChildProgramStatus, starting, failed}
use lil_bobby_tables_my_crt.Service.Tables.{DbReference}
use lil_bobby_tables_my_crt.Service.Http.{World}
use lil_bobby_tables_my_crt.Service.ReplayDao.{replay_of}
use lil_bobby_tables_my_crt.Process.Mimics.{ReplayManager, load_all}
use lil_bobby_tables_my_crt.Process.Mimics.Loaded.{
  Statuses, statuses, set_status, OnlyReplays, OthersFound, has_replay, is_loadable, load_one_lem,
}

abbrev pub member : ℕ → List ℕ → Bool
member j [] = false
member j (i ∷ is) = (j == i) || member j is

abbrev pub AllDifferent : List ℕ → Type 0
AllDifferent [] = Unit
AllDifferent (i ∷ is) = (member i is ≡ false) × AllDifferent is

-- Each of the ids gets the status STARTING if it passes the test, and FAILED else.
abbrev pub status_in : List ℕ → (ℕ → Bool) → ℕ × ChildProgramStatus → ChildProgramStatus
status_in ids loads x = if member x.0 ids then (if loads x.0 then starting else failed) else x.1

abbrev pub set_all : List ℕ → (ℕ → Bool) → Statuses → Statuses
set_all ids loads [] = []
set_all ids loads (x ∷ xs) = (x.0, status_in ids loads x) ∷ set_all ids loads xs

set_all-none : (loads : ℕ → Bool) (xs : Statuses) → set_all [] loads xs ≡ xs
set_all-none loads [] = refl
set_all-none loads (x ∷ xs) = ap (λ ys. x ∷ ys) (set_all-none loads xs)

-- To treat one replay and then the others is to treat all.
set_all-set_status :
    (i : ℕ) (is : List ℕ) (before after : ℕ → Bool)
    → member i is ≡ false
    → ((j : ℕ) → (j == i) ≡ false → after j ≡ before j)
    → (xs : Statuses)
    → set_all is after (set_status i (if before i then starting else failed) xs)
      ≡ set_all (i ∷ is) before xs
set_all-set_status i is before after new same [] = refl
set_all-set_status i is before after new same (x ∷ xs) =
    let rest = set_all-set_status i is before after new same xs in
    elim (Bool-cases (x.0 == i)) [
      | inl e ↦
          let p : x.0 ≡ i = ground (arith, e) in
          let absent : member x.0 is ≡ false = rw p new in
          let loads : before x.0 ≡ before i = ap before p in
          rw e (
            rw absent
              (rw loads (ap (λ ys. (x.0, if before i then starting else failed) ∷ ys) rest)))
      | inr e ↦ rw e (rw (same x.0 e) (ap (λ ys. (x.0, status_in is before x) ∷ ys) rest))
    ]

abbrev pub managers : List ℕ → List ReplayManager
managers [] = []
managers (i ∷ is) = record { id = i; has_started = false } ∷ managers is

select-same :
    (i : ℕ) (is : List ℕ) (before after : ℕ → Bool)
    → member i is ≡ false
    → ((j : ℕ) → (j == i) ≡ false → after j ≡ before j)
    → select after is ≡ select before is
unfolding select
select-same i [] before after new same = refl
select-same i (j ∷ is) before after new same =
    let ne : (j == i) ≡ false = ground (arith, new) in
    let rest = select-same i is before after (ground (arith, new)) same in
    rw (same j ne) (rw rest refl)

module _ (rejects : DbReference → Option String) where
  same_loadable :
      (i j : ℕ) (v w : World)
      → OnlyReplays v w
      → OthersFound i v w
      → (j == i) ≡ false
      → is_loadable rejects j v.tables ≡ is_loadable rejects j w.tables
  same_loadable i j v w only others ne =
      ap (λ r. has_replay rejects r v.tables.databases) (others j ne)
      ∙ ap (λ (u : World). has_replay rejects (replay_of j w.tables) u.tables.databases) only

  -- The setup of a mimic, for ids that all differ: the replays that can be loaded are kept, in their order
  -- and not yet started, and get the status STARTING; the others of the ids get FAILED. The statuses of
  -- all other replays, and all else but the rows of replays, stay as they are.
  pub load_all_lem :
      (ids : List ℕ) (w : World)
      → AllDifferent ids
      → (v : World) × (load_all rejects ids w
          ≡ (ok (managers (select (λ i. is_loadable rejects i w.tables) ids)), v))
        × (statuses v.tables.replays
            ≡ set_all ids (λ i. is_loadable rejects i w.tables) (statuses w.tables.replays))
        × OnlyReplays v w
  unfolding load_all ◌>>=◌ select
  load_all_lem [] w d = (
    w,
    refl,
    sym (set_all-none (λ i. is_loadable rejects i w.tables) (statuses w.tables.replays)),
    refl,
  )
  load_all_lem (i ∷ is) w (new, d) =
      let one = load_one_lem rejects i w in
      let rest = load_all_lem is one.0 d in
      let before = λ (j : ℕ). is_loadable rejects j w.tables in
      let after = λ (j : ℕ). is_loadable rejects j one.0.tables in
      let same : (j : ℕ) → (j == i) ≡ false → after j ≡ before j =
        λ j ne. same_loadable i j one.0 w one.2.1 one.2.2 ne in
      (
        rest.0,
        rw one.1 (
            rw rest.1 (
              rw (select-same i is before after new same)
                (elim (Bool-cases (before i)) [ inl e ↦ rw e refl | inr e ↦ rw e refl ]))),
        rest.2
            ∙ (ap (set_all is after) one.2.0
                ∙ set_all-set_status i is before after new same (statuses w.tables.replays)),
        rest.3 ∙ one.2.1,
      )

-- ===== src/Service/ReplayRoutes/Checks.antt =====
-- What the replay routes check: the databases in use.
use lil_bobby_tables_my_crt.Common.Tests.{
  sym, ◌∙◌, ℕ, String, ◌≡◌, refl, ◌≢◌, ◌↔◌, inl, inr, true, false, not, List, [], ◌∷◌, map, arith,
  ltb, Bool-cases,
}
use lil_bobby_tables_my_crt.Common.Lists.{length, select, any, In, All, In-select}
use mathlib.Core.Bool.{true≢false}
use lil_bobby_tables_my_crt.Service.Tables.{ReplayRow, DbReference, Tables, is_id, join}
use lil_bobby_tables_my_crt.Service.Tables.Rows.{In-join}
use lil_bobby_tables_my_crt.Service.ReplayDao.{any_replays_on_db, occupies}
use lil_bobby_tables_my_crt.Service.ReplayRoutes.{
  codes_eq, repeated, target_key, Target, no_mimic_replays_on_same_db, busy,
}

length-In : {A : Type 0} (xs : List A) → (ltb 0 (length xs) ≡ true) ↔ ((x : A) × In x xs)
length-In [] = ((λ h. absurd (cc)), λ h. absurd h.1)
length-In (x ∷ xs) = ((λ h. (x, inl refl)), λ h. ground arith)

-- A database is taken exactly if a replay that is scheduled or not yet over has a reference of its name
-- and host.
pub any_replays_lem :
    (name host : String) (t : Tables)
    → (any_replays_on_db name host t ≡ true) ↔ (
        (r : ReplayRow) × (d : DbReference) × In r t.replays
        × In d t.databases
        × (is_id r.db_id d.id ≡ true)
        × (occupies name host (r, d) ≡ true))
unfolding any_replays_on_db
any_replays_lem name host t =
    let joined = join (λ r db. is_id r.db_id db.id) t.replays t.databases in
    let some_row = length-In (select (occupies name host) joined) in
    (
      (λ h.
          let x = some_row.0 h in
          let s = (In-select (occupies name host) joined x.0).0 x.1 in
          let j = (In-join (λ r db. is_id r.db_id db.id) t.replays t.databases x.0.0 x.0.1).0 s.0 in
          (x.0.0, x.0.1, j.0, j.1, j.2, s.1)),
      λ h. some_row.1 (
        (h.0, h.1),
        (In-select (occupies name host) joined (h.0, h.1)).1 (
          (In-join (λ r db. is_id r.db_id db.id) t.replays t.databases h.0 h.1).1 (h.2, h.3, h.4),
          h.5,
        ),
      ),
    )

abbrev pub AllDifferent : List (List ℕ) → Type 0
AllDifferent [] = Unit
AllDifferent (k ∷ ks) = All (λ j. k ≢ j) ks × AllDifferent ks

codes_eq_lem : (xs ys : List ℕ) → (codes_eq xs ys ≡ true) ↔ (xs ≡ ys)
codes_eq_lem [] [] = ((λ h. refl), λ h. refl)
codes_eq_lem [] (y ∷ ys) = ((λ h. cc), λ h. cc)
codes_eq_lem (x ∷ xs) [] = ((λ h. cc), λ h. cc)
codes_eq_lem (x ∷ xs) (y ∷ ys) = ground (arith, codes_eq_lem xs ys)

any-false : (k : List ℕ) (ks : List (List ℕ)) → (any (codes_eq k) ks ≡ false) ↔ All (λ j. k ≢ j) ks
unfolding any
any-false k [] = ((λ h. tt), λ h. refl)
any-false k (j ∷ ks) = elim (Bool-cases (codes_eq k j)) [
  | inl e ↦ rw e ((λ h. cc), λ h. absurd (h.0 ((codes_eq_lem k j).0 e)))
  | inr e ↦ rw e (
    (λ h. ((λ p. absurd (true≢false (sym ((codes_eq_lem k j).1 p) ∙ e))), (any-false k ks).0 h)),
    λ h. (any-false k ks).1 h.1,
  )
]

-- The check before a mimic lets a request through exactly if the texts that join host and database name
-- are different, whatever replays the tables hold; the answer 400 is sent later for each busy target.
pub no_mimic_replays_lem :
    (targets : List Target) (t : Tables)
    → (((no_mimic_replays_on_same_db targets t).calls_next ≡ true)
        ↔ AllDifferent (map target_key targets))
      × ((target : Target)
          → In target (no_mimic_replays_on_same_db targets t).late_answers
            ↔ (In target targets × (busy t target ≡ true)))
unfolding no_mimic_replays_on_same_db repeated
no_mimic_replays_lem targets t =
    (different (map target_key targets), λ x. In-select (busy t) targets x)
  where
    different : (ks : List (List ℕ)) → (not (repeated ks) ≡ true) ↔ AllDifferent ks
    different [] = ((λ h. tt), λ h. refl)
    different (k ∷ ks) =
        let rest = different ks in
        elim (Bool-cases (any (codes_eq k) ks)) [
          | inl e ↦ rw e ((λ h. cc), λ h. absurd (true≢false (sym e ∙ (any-false k ks).1 h.0)))
          | inr e ↦ rw e ((λ h. ((any-false k ks).0 e, rest.0 h)), λ h. rest.1 h.1)
        ]

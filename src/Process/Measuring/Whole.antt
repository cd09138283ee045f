-- ===== src/Process/Measuring/Whole.antt =====
-- sendMetricsToS3 (capture.ts) where queries or the files may fail: no part of a sample is written.
use lil_bobby_tables_my_crt.Common.Tests.{
  Option, none, some, if◌then◌else◌, ℕ, suc, ◌≡◌, refl, sym, ap, ◌∙◌, ◌⊎◌, inl, inr, List, [], ◌∷◌,
}
use lil_bobby_tables_my_crt.Common.Action.{Action, ◌>>=◌, pure}
use lil_bobby_tables_my_crt.Common.Lists.{length}
use lil_bobby_tables_my_crt.Common.Exec.{ok_injective, Result, ok, throw}
use mathlib.Core.Path.{subst}
use lil_bobby_tables_my_crt.Storage.Backend.{StorageBackend, IsLawful, key_eq}
use lil_bobby_tables_my_crt.Metrics.Backend.{metrics_hash, MetricEntry, MetricsBackend}
use lil_bobby_tables_my_crt.Process.Measuring.{Measuring, send_metrics, send_metrics_to_s3, get_all}
use lil_bobby_tables_my_crt.Data.{ChildProgram, MetricsList}
use lil_bobby_tables_my_crt.Process.Tries.{try_twice_lem}
use lil_bobby_tables_my_crt.Storage.Schema.{Key, single_sample_key, metrics, Error}

Result-cases :
    {A : Type 0} → (r : Result Error A) → ((e : Error) × (r ≡ throw e)) ⊎ ((a : A) × (r ≡ ok a))
Result-cases (throw e) = inl (e, refl)
Result-cases (ok a) = inr (a, refl)

module _ {Number World : Type 0} (to_megabytes : Number → Number)
    (service : MetricsBackend World Number) where
  -- All queries that succeed give one list for each entry.
  length-get_all :
      (start end : ℕ) (entries : List MetricEntry) (w : World) (lists : List (MetricsList Number))
      → (get_all to_megabytes service start end entries w).0 ≡ ok lists
      → length lists ≡ length entries
  unfolding get_all ◌>>=◌ pure
  length-get_all start end [] w lists h = ap length (sym (ok_injective h))
  length-get_all start end (entry ∷ entries) w lists h = elim (Result-cases r.0) [
    | inl (e, p) ↦ absurd (thrown (rw p at h))
    | inr (l, p) ↦ elim (Result-cases (get_all to_megabytes service start end entries r.1).0) [
      | inl (e, q) ↦ absurd (thrown (rw (p, q) at h))
      | inr (ls, q) ↦
          ap length (sym (ok_injective (rw (p, q) at h)))
          ∙ ap suc (length-get_all start end entries r.1 ls q)
    ]
  ]
    where
      r : Result Error (MetricsList Number) × World
      r = service entry start end w

      thrown :
          {e : Error} → ◌≡◌ {A = Result Error (List (MetricsList Number))} (throw e) (ok lists) → ⊥
      thrown p = cc

  module _ (backend : StorageBackend (List (MetricsList Number)))
      (contents : backend.State → Key → Option (List (MetricsList Number)))
      (lawful : IsLawful backend contents) (program : ChildProgram) (start end : ℕ) where
    -- The world that is left by the queries of one try.
    abbrev pub asked_from : World → World
    asked_from w = (get_all to_megabytes service start end metrics_hash w).1

    -- A try in this world fails: a query does, or there is no key for the sample.
    abbrev pub Fails : World → Type 0
    Fails w =
        ((e : Error) × ((get_all to_megabytes service start end metrics_hash w).0 ≡ throw e))
        ⊎ ((e : Error) × (single_sample_key metrics program end ≡ throw e))

    -- The files after are those before with one sample, of what all queries answered in this world.
    abbrev pub Written : World → backend.State → backend.State → Type 0
    Written w before after =
        (key : Key) × (lists : List (MetricsList Number)) × (single_sample_key metrics program end
          ≡ ok key)
        × ((get_all to_megabytes service start end metrics_hash w).0 ≡ ok lists)
        × (length lists ≡ 7)
        × ((k : Key) → contents after k ≡ (if key_eq key k then some lists else contents before k))

    abbrev action : Action (Measuring World backend.State) Error (Unit {0})
    action = send_metrics to_megabytes service backend program start end

    one_try :
        (g : Measuring World backend.State)
        → ((e : Error) × ((action g).0 ≡ throw e)
            × Fails g.world
            × ((action g).1 ≡ record g { world = asked_from g.world }))
          ⊎ (((action g).0 ≡ ok tt) × Written g.world g.files (action g).1.files)
    unfolding send_metrics ◌>>=◌
    one_try g =
        let asked = get_all to_megabytes service start end metrics_hash g.world in
        elim (Result-cases asked.0) [
          | inl (e, p) ↦ rw p (inl (e, refl, inl (e, refl), refl))
          | inr (lists, p) ↦ elim (Result-cases (single_sample_key metrics program end)) [
            | inl (e, q) ↦ rw (p, q) (inl (e, refl, inr (e, refl), refl))
            | inr (key, q) ↦
                rw (p, q)
                  (inr (
                    lawful.write_ok g.files key lists,
                    (
                      key,
                      lists,
                      refl,
                      refl,
                      length-get_all start end metrics_hash g.world lists p,
                      lawful.write_lem g.files key lists,
                    ),
                  ))
          ]
        ]

    one_failed :
        (g : Measuring World backend.State) (e : Error)
        → (action g).0 ≡ throw e
        → Fails g.world × ((action g).1 ≡ record g { world = asked_from g.world })
    one_failed g e h = elim (one_try g) [
      | inl (e', p, fails, same) ↦ (fails, same)
      | inr (p, written) ↦ cc
    ]

    one_ok :
        (g : Measuring World backend.State) (u : Unit {0})
        → (action g).0 ≡ ok u
        → Written g.world g.files (action g).1.files
    one_ok g u h = elim (one_try g) [ inl (e, p, fails, same) ↦ cc | inr (p, written) ↦ written ]

    -- sendMetricsToS3 never throws. It writes one sample, with one list for each of the seven metrics
    -- that are asked for, all answered in the first try; or the first try fails, and it writes what
    -- the second answered; or both tries fail, and it changes no file.
    -- This is for any service, and a place for files that works.
    pub send_metrics_to_s3_whole :
        (g : Measuring World backend.State)
        → let r = send_metrics_to_s3 to_megabytes service backend program start end g in
          ((r.0 ≡ ok (some tt)) × Written g.world g.files r.1.files)
          ⊎ ((r.0 ≡ ok (some tt)) × Fails g.world × Written (asked_from g.world) g.files r.1.files)
          ⊎ ((r.0 ≡ ok none) × Fails g.world × Fails (asked_from g.world) × (r.1.files ≡ g.files))
    unfolding send_metrics_to_s3
    send_metrics_to_s3_whole g = elim (try_twice_lem action g) [
      | inl (u, p, t) ↦ rw t (inl (refl, one_ok g u p))
      | inr (e, p, inl (u, q, t)) ↦
          let first = one_failed g e p in
          rw t (
            inr (
              inl (
                refl,
                first.0,
                subst (λ h. Written h.world h.files (action (action g).1).1.files) first.1
                    (one_ok (action g).1 u q),
              )))
      | inr (e, p, inr (e', q, t)) ↦
          let first = one_failed g e p in
          let second = one_failed (action g).1 e' q in
          rw t (
            inr (
              inr (
                refl,
                first.0,
                subst (λ h. Fails h.world) first.1 second.0,
                ap (λ h. h.files) second.1 ∙ ap (λ h. h.files) first.1,
              )))
    ]

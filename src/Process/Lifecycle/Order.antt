-- ===== src/Process/Lifecycle/Order.antt =====
-- The order of a capture's calls, on every path.
use lil_bobby_tables_my_crt.Common.Tests.{
  false, sym, ◌∙◌, Bool-cases, ℕ, zero, suc, ◌≤◌, ◌<◌, ◌≡◌, refl, ap, ◌⊎◌, inl, inr, Bool, true,
  some, List, [], ◌∷◌, ◌++◌, arith,
}
use lil_bobby_tables_my_crt.Common.Lists.{append_nil, append_assoc, length}
use lil_bobby_tables_my_crt.Common.Exec.{Result, ok, throw}
use lil_bobby_tables_my_crt.Common.Action.{Action, ◌>>=◌, ◌>>◌}
use lil_bobby_tables_my_crt.Process.Lifecycle.{
  wait_for_metrics, Step, ipc_start, ipc_stop, set_status, record_start_time, set_logging,
  build_workload_file, build_metrics_file, Halt, rejected, exited, Process, catching, call,
  self_destruct, set_start_time, setup, finish,
}
use lil_bobby_tables_my_crt.Data.{starting, running, done, failed}

abbrev pub take : {A : Type 0} → ℕ → List A → List A
take zero xs = []
take (suc n) [] = []
take (suc n) (x ∷ xs) = x ∷ take n xs

abbrev pub after : List Step → Process → Process
after made p = record p { steps = p.steps ++ made }

append_one : (xs ys : List Step) (x : Step) → (xs ++ (x ∷ [])) ++ ys ≡ xs ++ (x ∷ ys)
append_one [] ys x = refl
append_one (z ∷ xs) ys x = ap (λ l. z ∷ l) (append_one xs ys x)

abbrev ok_at : Process → Result Halt (Unit {0}) × Process
ok_at q = (ok tt, q)

abbrev outcome : Process → Result Halt (Unit {0}) → List Step → Result Halt (Unit {0}) × Process
outcome p r l = (r, record p { steps = l })

module _ (returns : Step → List Step → Bool) where
  -- The calls one after the other, and then the rest.
  abbrev run : List Step → Action Process Halt (Unit {0}) → Action Process Halt (Unit {0})
  run [] rest = rest
  run (s ∷ ss) rest = call returns s >> run ss rest

  -- These calls all return, made one after the other after those before.
  abbrev pub AllReturn : List Step → List Step → Type 0
  AllReturn before [] = Unit
  AllReturn before (s ∷ ss) = (returns s before ≡ true) × AllReturn (before ++ (s ∷ [])) ss

  -- The call at this position is the first of these that rejects.
  abbrev pub RejectsAt : ℕ → List Step → List Step → Step → Type 0
  RejectsAt n before [] e = ⊥
  RejectsAt zero before (s ∷ ss) e = (returns s before ≡ false) × (e ≡ s)
  RejectsAt (suc n) before (s ∷ ss) e =
      (returns s before ≡ true) × RejectsAt n (before ++ (s ∷ [])) ss e

  -- All calls are made and return, or some first one rejects and nothing is done after it.
  data Made (ss : List Step) (rest : Action Process Halt (Unit {0})) (p : Process) : Type 0 where
    all_made : AllReturn p.steps ss → run ss rest p ≡ rest (after ss p) → Made ss rest p
    stopped :
        (n : ℕ) (e : Step)
        → n < length ss
        → RejectsAt n p.steps ss e
        → run ss rest p ≡ (throw (rejected e), after (take (suc n) ss) p)
        → Made ss rest p

  made : (ss : List Step) (rest : Action Process Halt (Unit {0})) (p : Process) → Made ss rest p
  unfolding call ◌>>=◌
  made [] rest p = all_made tt (ap (λ l. rest (record p { steps = l })) (sym (append_nil p.steps)))
  made (s ∷ ss) rest p = elim (Bool-cases (returns s p.steps)) [
    | inl h ↦ elim (made ss rest (after (s ∷ []) p)) [
      | all_made a e ↦
          all_made (h, a)
            (rw h (e ∙ ap (λ l. rest (record p { steps = l })) (append_one p.steps ss s)))
      | stopped n c lt r e ↦
          stopped (suc n) c (omega (arith, lt)) (h, r)
            (rw h
              (e ∙ ap (outcome p (throw (rejected c))) (append_one p.steps (take (suc n) ss) s)))
    ]
    | inr h ↦ stopped 0 s (omega arith) (h, refl) (rw h refl)
  ]

  AllReturn-append :
      (before ss : List Step) (s : Step)
      → AllReturn before ss
      → returns s (before ++ ss) ≡ true
      → AllReturn before (ss ++ (s ∷ []))
  AllReturn-append before [] s a h = (rw (append_nil before) at h, tt)
  AllReturn-append before (x ∷ ss) s (p, a) h =
      (p, AllReturn-append (before ++ (x ∷ [])) ss s a (rw (append_one before ss x) h))

  RejectsAt-last :
      (before ss : List Step) (s : Step)
      → AllReturn before ss
      → returns s (before ++ ss) ≡ false
      → RejectsAt (length ss) before (ss ++ (s ∷ [])) s
  RejectsAt-last before [] s a h = (rw (append_nil before) at h, refl)
  RejectsAt-last before (x ∷ ss) s (p, a) h =
      (p, RejectsAt-last (before ++ (x ∷ [])) ss s a (rw (append_one before ss x) h))

  RejectsAt-append :
      (n : ℕ) (before ss ys : List Step) (e : Step)
      → RejectsAt n before ss e
      → RejectsAt n before (ss ++ ys) e
  RejectsAt-append n before [] ys e r = absurd r
  RejectsAt-append zero before (x ∷ ss) ys e r = r
  RejectsAt-append (suc n) before (x ∷ ss) ys e (p, r) =
      (p, RejectsAt-append n (before ++ (x ∷ [])) ss ys e r)

  destroyed :
      (q : Process) → (self_destruct returns q).1.steps ≡ q.steps ++ (set_status failed ∷ [])
  unfolding self_destruct call
  destroyed q = elim (Bool-cases (returns (set_status failed) q.steps)) [
    | inl h ↦ rw h refl
    | inr h ↦ rw h refl
  ]

  take-append : (n : ℕ) (xs ys : List Step) → n ≤ length xs → take n (xs ++ ys) ≡ take n xs
  take-append zero xs ys h = refl
  take-append (suc n) [] ys h = absurd (omega (arith, h))
  take-append (suc n) (x ∷ xs) ys h = ap (λ l. x ∷ l) (take-append n xs ys (omega (arith, h)))

  -- The setup of a capture makes five calls in this order: it starts the ipc node, sets `STARTING`,
  -- turns the log on, sets `RUNNING` and records the start. If all return, it returns and the start
  -- time is the clock's; at the first that rejects no later one is made, `FAILED` is sent as the status and
  -- the process exits with 42.
  pub setup_lem :
      (p : Process)
      → let before = ipc_start ∷ set_status starting ∷ set_logging true ∷ set_status running ∷ [] in
        let all = before ++ (record_start_time ∷ []) in
        (AllReturn p.steps all
          × (setup returns p
              ≡ (ok tt, record p { steps = p.steps ++ all; start_time = some p.clock })))
        ⊎ ((n : ℕ) × (e : Step) × (n < 5)
            × RejectsAt n p.steps all e
            × ((setup returns p).0 ≡ throw (exited 42))
            × ((setup returns p).1.steps
                ≡ p.steps ++ (take (suc n) all ++ (set_status failed ∷ []))))
  unfolding setup ◌>>=◌ catching call set_start_time self_destruct
  setup_lem p =
      let before = ipc_start ∷ set_status starting ∷ set_logging true ∷ set_status running ∷ [] in
      let last = record_start_time ∷ [] in
      let end = set_status failed ∷ [] in
      elim (made before (set_start_time returns >> call returns record_start_time) p) [
        | all_made returned e ↦ elim (Bool-cases (returns record_start_time (p.steps ++ before))) [
          | inl h ↦ inl (
            AllReturn-append p.steps before record_start_time returned h,
            rw e (
                rw h (
                  ap (λ l. ok_at (record p { steps = l; start_time = some p.clock }))
                    (append_assoc p.steps before last))),
          )
          | inr h ↦ inr (
            4,
            record_start_time,
            omega arith,
            RejectsAt-last p.steps before record_start_time returned h,
            rw e (rw h refl),
            rw e (
                rw h (
                  destroyed
                    (record p { steps = (p.steps ++ before) ++ last; start_time = some p.clock })
                  ∙ (append_assoc (p.steps ++ before) last end
                      ∙ append_assoc p.steps before (last ++ end)))),
          )
        ]
        | stopped n c lt r e ↦ inr (
          n,
          c,
          omega (arith, lt),
          RejectsAt-append n p.steps before last c r,
          rw e refl,
          rw e (
              destroyed (after (take (suc n) before) p)
              ∙ (append_assoc p.steps (take (suc n) before) end
                  ∙ ap (λ l. p.steps ++ (l ++ end))
                      (sym (take-append (suc n) before last (omega (arith, lt)))))),
        )
      ]

  -- After the delay of the teardown the final workload is built, the metrics of all rounds are
  -- waited for, the final metrics are built, the ipc node stops and the status becomes
  -- `DONE`, in this order. If all these calls return, it returns; at the first that rejects it
  -- rejects with it, and no later one is made.
  pub finish_lem :
      (p : Process)
      → let all =
          build_workload_file
          ∷ wait_for_metrics
          ∷ build_metrics_file
          ∷ ipc_stop
          ∷ set_status done
          ∷ [] in
        (AllReturn p.steps all × (finish returns p ≡ (ok tt, after all p)))
        ⊎ ((n : ℕ) × (e : Step) × (n < 5)
            × RejectsAt n p.steps all e
            × (finish returns p ≡ (throw (rejected e), after (take (suc n) all) p)))
  unfolding finish call
  finish_lem p =
      let before = build_workload_file ∷ wait_for_metrics ∷ build_metrics_file ∷ ipc_stop ∷ [] in
      elim (made before (call returns (set_status done)) p) [
        | all_made returned e ↦ elim (Bool-cases (returns (set_status done) (p.steps ++ before))) [
          | inl h ↦ inl (
            AllReturn-append p.steps before (set_status done) returned h,
            e ∙ rw h (ap (outcome p (ok tt)) (append_assoc p.steps before (set_status done ∷ []))),
          )
          | inr h ↦ inr (
            4,
            set_status done,
            omega arith,
            RejectsAt-last p.steps before (set_status done) returned h,
            e
                ∙ rw h (
                    ap (outcome p (throw (rejected (set_status done))))
                      (append_assoc p.steps before (set_status done ∷ []))),
          )
        ]
        | stopped n c lt r e ↦ inr (
          n,
          c,
          omega (arith, lt),
          RejectsAt-append n p.steps before (set_status done ∷ []) c r,
          e
              ∙ ap (λ l. (throw (rejected c), record p { steps = p.steps ++ l }))
                  (sym (take-append (suc n) before (set_status done ∷ []) (omega (arith, lt)))),
        )
      ]

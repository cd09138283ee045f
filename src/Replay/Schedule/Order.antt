-- ===== src/Replay/Schedule/Order.antt =====
-- The order in which a replay hands over its commands (replay.ts).
use lil_bobby_tables_my_crt.Common.Tests.{
  ℕ, zero, suc, ◌+◌, String, ◌≡◌, refl, ap, ◌∙◌, inl, inr, List, [], ◌∷◌, ◌++◌, arith, Bool-cases,
}
use lil_bobby_tables_my_crt.Common.Lists.{length, length-append, drop, all}
use mathlib.Core.List.{append_assoc}
use mathlib.Core.Path.{subst}
use native.Mathlib.Nat.{add-zero, add-suc, suc-add}
use lil_bobby_tables_my_crt.Data.{Command}
use lil_bobby_tables_my_crt.Replay.Schedule.{
  Replay, Timer, query_in_interval, schedule, round, rounds,
}

abbrev pub commands_of : List Timer → List Command
commands_of [] = []
commands_of (t ∷ ts) = t.command ∷ commands_of ts

-- The indices rise by one from the given one.
abbrev pub Consecutive : ℕ → List Timer → Type 0
Consecutive i [] = Unit
Consecutive i (t ∷ ts) = (t.index ≡ i) × Consecutive (suc i) ts

commands_of-append :
    (ts us : List Timer) → commands_of (ts ++ us) ≡ commands_of ts ++ commands_of us
commands_of-append [] us = refl
commands_of-append (t ∷ ts) us = ap (λ cs. t.command ∷ cs) (commands_of-append ts us)

Consecutive-append :
    (i : ℕ) (ts us : List Timer)
    → Consecutive i ts
    → Consecutive (i + length ts) us
    → Consecutive i (ts ++ us)
Consecutive-append i [] us h k = rw add-zero at k
Consecutive-append i (t ∷ ts) us (p, h) k =
    (p, Consecutive-append (suc i) ts us h (rw (add-suc, ← suc-add) at k))

drop-suc :
    {A : Type 0} (i : ℕ) (xs : List A) (x : A) (rest : List A)
    → drop i xs ≡ x ∷ rest
    → drop (suc i) xs ≡ rest
drop-suc zero [] x rest h = cc
drop-suc zero (y ∷ xs) x rest h = cc
drop-suc (suc i) [] x rest h = cc
drop-suc (suc i) (y ∷ xs) x rest h = drop-suc i xs x rest h

module _ (date_time : String → ℕ) (clock : ℕ → ℕ) where
  schedule_order :
      (r : Replay) (all cs : List Command) (i n : ℕ)
      → drop i all ≡ cs
      → let s = schedule date_time clock r cs i n in
        Consecutive i s.timers
        × (s.index ≡ i + length s.timers)
        × (commands_of s.timers ++ drop s.index all ≡ cs)
  unfolding schedule
  schedule_order r all [] i n h = (tt, omega arith, h)
  schedule_order r all (c ∷ cs) i n h =
      elim (Bool-cases (query_in_interval date_time r c (clock n))) [
        | inl e ↦
            let (indices, moved, split) =
              schedule_order r all cs (suc i) (n + 2) (drop-suc i all c cs h) in
            rw e ((refl, indices), omega (arith, moved), ap (λ cs. c ∷ cs) split)
        | inr e ↦ rw e (tt, omega arith, h)
      ]

  -- However many rounds run, and whatever the clock reads: the commands are handed over in their order
  -- from the index on, none twice and none passed over, and the index moves by their number.
  pub rounds_order :
      (k : ℕ) (r : Replay) (n : ℕ)
      → let end = rounds date_time clock k r n in
        Consecutive r.workload_index end.timers
        × (end.after.workload_index ≡ r.workload_index + length end.timers)
        × (commands_of end.timers ++ drop end.after.workload_index r.commands
            ≡ drop r.workload_index r.commands)
        × (end.after.commands ≡ r.commands)
  unfolding rounds round
  rounds_order zero r n = (tt, omega arith, refl, refl)
  rounds_order (suc k) r n =
      let one = round date_time clock r n in
      let (indices, moved, split) =
        schedule_order r r.commands (drop r.workload_index r.commands) r.workload_index n refl in
      elim (Bool-cases one.finished) [
        | inl e ↦ rw e (indices, moved, split, refl)
        | inr e ↦
            let more = rounds date_time clock k one.after one.readings in
            let (indices', moved', split', same) = rounds_order k one.after one.readings in
            rw e (
              Consecutive-append r.workload_index one.timers more.timers indices
                  (subst (λ i. Consecutive i more.timers) moved indices'),
              omega (arith, moved, moved', length-append one.timers more.timers),
              ap (λ cs. cs ++ drop more.after.workload_index r.commands)
                    (commands_of-append one.timers more.timers)
                  ∙ append_assoc (commands_of one.timers) (commands_of more.timers) _
                  ∙ ap (λ cs. commands_of one.timers ++ cs) split'
                  ∙ split,
              same,
            )
      ]

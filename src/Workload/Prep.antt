-- ===== src/Workload/Prep.antt =====
-- capture/src/workload/replay-prep.ts: the commands of a fragment that are kept for a replay.
use lil_bobby_tables_my_crt.Common.Tests.{
  ℕ, ◌-◌, ◌≡◌, refl, ap, ◌↔◌, Bool, true, false, ◌&&◌, List, [], ◌∷◌, ◌++◌, map, leb, ◌==◌,
  if◌then◌else◌, codes,
}
use lil_bobby_tables_my_crt.Common.Lists.{
  select-select, In-select, select, In, All, select-append, select-All,
}
use lil_bobby_tables_my_crt.Data.{Command, Workload}

-- `toUpperCase` as far as the pattern of `mockFilter` can tell: besides the small letters of ASCII the
-- dotless i and the long s have one of its letters for upper case.
abbrev pub upper : ℕ → ℕ
upper c =
    if leb b'a' c && leb c b'z'
    then c - 32
    else (if c == 0x131 then b'I' else (if c == 0x17f then b'S' else c))

-- `text.startsWith(prefix)` over code points
unfoldable pub begins_with : List ℕ → List ℕ → Bool
begins_with s [] = true
begins_with [] (c ∷ p) = false
begins_with (d ∷ s) (c ∷ p) = d == c && begins_with s p

-- `mockFilter`: the upper case of the argument matches /^UPDATE LILBOBBYTABLES/.
unfoldable pub mock_filter : Command → Bool
mock_filter c = begins_with (map upper (codes c.argument)) (codes "UPDATE LILBOBBYTABLES")

-- `convertTime` gives the command back.
unfoldable pub prepare_workload : Workload → Bool → Workload
prepare_workload w mock = if mock then record w { commands = select mock_filter w.commands } else w

-- Outside mock mode a fragment is as it was. In mock mode every command that is kept is an update of
-- the dummy table, and every such command is kept, once and in the order of the fragment: preparing the
-- two parts of a fragment and preparing the whole is the same, and so is preparing it again.
pub prepare_workload_lem :
    (w : Workload) (more : List Command)
    → (prepare_workload w false ≡ w)
      × All (λ c. mock_filter c ≡ true) (prepare_workload w true).commands
      × (prepare_workload (prepare_workload w true) true ≡ prepare_workload w true)
      × ((prepare_workload (record w { commands = w.commands ++ more }) true).commands
          ≡ (prepare_workload w true).commands
            ++ (prepare_workload (record w { commands = more }) true).commands)
unfolding prepare_workload
prepare_workload_lem w more = (
  refl,
  select-All mock_filter w.commands,
  ap (λ (cs : List Command). let v : Workload = record w { commands = cs } in v)
      (select-select mock_filter w.commands),
  select-append mock_filter w.commands more,
)

-- The commands that a capture keeps: in mock mode the updates of the dummy table alone.
abbrev pub IsKept : Bool → Command → Type 0
IsKept mock c = mock ≡ true → mock_filter c ≡ true

pub In-prepare_workload :
    (w : Workload) (mock : Bool) (c : Command)
    → In c (prepare_workload w mock).commands ↔ (In c w.commands × IsKept mock c)
unfolding prepare_workload
In-prepare_workload w true c = (
  (λ i. let h = (In-select mock_filter w.commands c).0 i in (h.0, λ _. h.1)),
  λ h. (In-select mock_filter w.commands c).1 (h.0, h.1 refl),
)
In-prepare_workload w false c = ((λ i. (i, λ e. cc)), λ h. h.0)

-- ===== src/Workload/Storage/Merged.antt =====
-- What workloads merged one after the other hold (workload-storage.ts): where commands of one hash are the
-- same command, every command of each, once.
use lil_bobby_tables_my_crt.Common.Tests.{
  ℕ, String, ◌≡◌, refl, sym, ap, ◌∙◌, ◌↔◌, inl, inr, Option, none, some, List, [], ◌∷◌, ◌++◌, map,
  str_eq, Bool-cases,
}
use lil_bobby_tables_my_crt.Common.Lists.{append_nil, In-append, In-map, In}
use lil_bobby_tables_my_crt.Common.Keyed.{last_with_iff_In}
use lil_bobby_tables_my_crt.Common.Sort.{IsSorted}
use mathlib.Core.Path.{subst}
use mathlib.Core.List.{append_assoc}
use lil_bobby_tables_my_crt.Workload.Storage.{
  event_ms, workload_storage, command_text, ensure_hash, hash_or_new, hash_of, merge_objects,
}
use lil_bobby_tables_my_crt.Data.{Command, Workload}
use lil_bobby_tables_my_crt.Storage.Backend.{StorageBackend}
use lil_bobby_tables_my_crt.Storage.Fragmented.Listed.{merged}
use lil_bobby_tables_my_crt.Storage.Schema.{Key}
use lil_bobby_tables_my_crt.Workload.Storage.Exact.{merge_objects_exact}

-- The commands of these workloads.
abbrev pub commands_of : List Workload → List Command
commands_of [] = []
commands_of (w ∷ ws) = w.commands ++ commands_of ws

pub In-commands_of :
    (ws : List Workload) (c : Command)
    → In c (commands_of ws) ↔ ((w : Workload) × In w ws × In c w.commands)
In-commands_of [] c = ((λ i. absurd i), λ h. absurd h.1)
In-commands_of (w ∷ ws) c = (
  (λ i. elim ((In-append w.commands (commands_of ws) c).0 i) [
    | inl j ↦ (w, inl refl, j)
    | inr j ↦ let h = (In-commands_of ws c).0 j in (h.0, inr h.1, h.2)
  ]),
  λ h. (In-append w.commands (commands_of ws) c).1 (elim h.1 [
    | inl e ↦ inl (subst (λ v. In c v.commands) e h.2)
    | inr j ↦ inr ((In-commands_of ws c).1 (h.0, j, h.2))
  ]),
)

module _ (md5 : Key → String) (date_time : String → Option ℕ) where
  abbrev pub hashed : Command → Command
  hashed c = ensure_hash md5 date_time c

  hash_again :
      (h : Option String) (c : Command)
      → hash_or_new md5 date_time (some (hash_or_new md5 date_time h c)) c
        ≡ hash_or_new md5 date_time h c
  unfolding hash_or_new
  hash_again none c = elim (Bool-cases (str_eq (md5 (command_text c)) "")) [
    | inl p ↦ rw p refl
    | inr p ↦ rw p refl
  ]
  hash_again (some h) c = elim (Bool-cases (str_eq h "")) [
    | inl p ↦ rw p (elim (Bool-cases (str_eq (md5 (command_text c)) "")) [
      | inl q ↦ rw q refl
      | inr q ↦ rw q refl
    ])
    | inr p ↦ rw p (rw p refl)
  ]

  -- `ensureHash` of a command that it was applied to changes nothing.
  hashed-hashed : (c : Command) → hashed (hashed c) ≡ hashed c
  unfolding ensure_hash hash_or_new
  hashed-hashed c =
      ap (λ (h : String). let d : Command = record c { hash = some h } in d) (hash_again c.hash c)

  -- The command with its hash is one of these commands with its hash.
  abbrev pub IsHashed : List Command → Command → Type 0
  IsHashed cs x = (c : Command) × In c cs × (x ≡ hashed c)

  -- Of the commands of a log no two that differ have one hash.
  abbrev pub HashesDiffer : List Command → Type 0
  HashesDiffer log =
      (c d : Command)
      → In c log
      → In d log
      → hash_of md5 date_time (hashed c) ≡ hash_of md5 date_time (hashed d)
      → hashed c ≡ hashed d

  module _ (log : List Command) (differ : HashesDiffer log) where
    -- The workload holds these commands of the log with their hashes, and no other.
    abbrev pub Holds : Workload → List Command → Type 0
    Holds w cs = (x : Command) → In x w.commands ↔ IsHashed cs x

    abbrev pub Logged : List Command → Type 0
    Logged cs = (c : Command) → In c cs → In c log

    In-both :
        (a b : Workload) (cs : List Command)
        → Holds a cs
        → (x : Command)
        → In x (map hashed a.commands ++ map hashed b.commands) ↔ IsHashed (cs ++ b.commands) x
    In-both a b cs h x = (
      (λ i. elim ((In-append (map hashed a.commands) (map hashed b.commands) x).0 i) [
        | inl j ↦
            let d = (In-map hashed a.commands x).0 j in
            let c = (h d.0).0 d.1 in
            (
              c.0,
              (In-append cs b.commands c.0).1 (inl c.1),
              d.2 ∙ (ap hashed c.2 ∙ hashed-hashed c.0),
            )
        | inr j ↦
            let d = (In-map hashed b.commands x).0 j in
            (d.0, (In-append cs b.commands d.0).1 (inr d.1), d.2)
      ]),
      λ c.
          (In-append (map hashed a.commands) (map hashed b.commands) x).1
            (elim ((In-append cs b.commands c.0).0 c.1) [
              | inl j ↦ inl (
                  (In-map hashed a.commands x).1
                    (hashed c.0, (h (hashed c.0)).1 (c.0, j, refl), c.2 ∙ sym (hashed-hashed c.0)))
              | inr j ↦ inr ((In-map hashed b.commands x).1 (c.0, j, c.2))
            ]),
    )

    Holds-merge_objects :
        (a b : Workload) (cs : List Command)
        → Holds a cs
        → Logged (cs ++ b.commands)
        → Holds (merge_objects md5 date_time a b) (cs ++ b.commands)
    Holds-merge_objects a b cs h logged x =
        let both = map hashed a.commands ++ map hashed b.commands in
        let exact = (merge_objects_exact md5 date_time a b).0 x in
        let alone : IsHashed (cs ++ b.commands) x
            → (y : Command) → In y both
            → hash_of md5 date_time y ≡ hash_of md5 date_time x
            → y ≡ x =
          λ c y i e.
            let d = (In-both a b cs h y).0 i in
            d.2
            ∙ (differ d.0 c.0 (logged d.0 d.1) (logged c.0 c.1)
                  (ap (hash_of md5 date_time) (sym d.2) ∙ (e ∙ ap (hash_of md5 date_time) c.2))
                ∙ sym c.2) in
        let last =
          last_with_iff_In (hash_of md5 date_time) x both λ i. alone ((In-both a b cs h x).0 i) in
        (
          (λ i. (In-both a b cs h x).0 (last.0 (exact.0 i))),
          λ c. exact.1 (last.1 ((In-both a b cs h x).1 c)),
        )

    module _ (backend : StorageBackend Workload) where
      -- A workload merged with these holds its commands and theirs, in the order of their event times.
      pub Holds-merged :
          (ws : List Workload) (v : Workload) (cs : List Command)
          → Holds v cs
          → IsSorted (event_ms md5 date_time) v.commands
          → Logged (cs ++ commands_of ws)
          → let w = merged (workload_storage md5 date_time backend) v ws in
            Holds w (cs ++ commands_of ws) × IsSorted (event_ms md5 date_time) w.commands
      Holds-merged [] v cs h sorted logged = rw (append_nil cs) (h, sorted)
      Holds-merged (w ∷ ws) v cs h sorted logged =
          let regroup = append_assoc cs w.commands (commands_of ws) in
          let part : Logged (cs ++ w.commands) = λ c i.
            logged c
              (rw (← regroup) ((In-append (cs ++ w.commands) (commands_of ws) c).1 (inl i))) in
          rw (← regroup) (
            Holds-merged ws (merge_objects md5 date_time v w) (cs ++ w.commands)
              (Holds-merge_objects v w cs h part) (merge_objects_exact md5 date_time v w).1
              (λ c i. logged c (rw (← regroup) i)))

-- ===== src/Storage/Fragmented/Outside.antt =====
-- A read of a fragmented file changes files of its own program only (fragmented-storage.ts).
use lil_bobby_tables_my_crt.Common.Tests.{
  ℕ, ◌≡◌, sym, ap, ◌∙◌, ◌≢◌, Bool, true, false, Option, List, [], ◌++◌, arith, if◌then◌else◌, codes,
}
use lil_bobby_tables_my_crt.Common.Exec.{ok, ok_injective, >>=-eq-ok}
use lil_bobby_tables_my_crt.Common.Action.{reads, modify}
use lil_bobby_tables_my_crt.Common.Action.Keeps.{
  Keeps, bind-Keeps, lift-Keeps, reads-Keeps, pure-Keeps, reads_last-Keeps,
}
use mathlib.Core.List.{append-nil}
use lil_bobby_tables_my_crt.Data.{ChildProgram}
use lil_bobby_tables_my_crt.Storage.Schema.{
  Key, FragmentType, time_pattern, root_prefix, depot_prefix, done_key, done_name, in_progress_key,
  timed_name,
}
use lil_bobby_tables_my_crt.Storage.Backend.{IsLawful, key_eq_iff}
use lil_bobby_tables_my_crt.Storage.Fragmented.{
  FragmentedStorage, delete_all, delete_in_progress, delete_depot_entries,
  clean_in_progress_and_depot_files, update_in_progress_object, read_fragments, read, date_ms,
}
use lil_bobby_tables_my_crt.Storage.Fragmented.Frame.{
  get_updated_object_state, delete_all_keeps, Outside, outside, listed-Outside, unchanged-outside,
}

pub depot-eq_root :
    (c : ChildProgram) {root depot : Key}
    → root_prefix c ≡ ok root
    → depot_prefix c ≡ ok depot
    → depot ≡ root ++ codes "depot/"
unfolding depot_prefix
depot-eq_root c h e =
    let (root', e', same) = >>=-eq-ok (root_prefix c) _ e in
    sym (ok_injective same) ∙ ap (λ r. r ++ codes "depot/") (ok_injective (sym e' ∙ h))

pub done-eq_root :
    (t : FragmentType) (c : ChildProgram) {root done : Key}
    → root_prefix c ≡ ok root
    → done_key t c ≡ ok done
    → done ≡ root ++ done_name t
unfolding done_key
done-eq_root t c h e =
    let (root', e', same) = >>=-eq-ok (root_prefix c) _ e in
    sym (ok_injective same) ∙ ap (λ r. r ++ done_name t) (ok_injective (sym e' ∙ h))

in_progress-eq_root :
    (t : FragmentType) (c : ChildProgram) (n : ℕ) {root k : Key}
    → root_prefix c ≡ ok root
    → in_progress_key t c n ≡ ok k
    → k ≡ root ++ timed_name t n
unfolding in_progress_key
in_progress-eq_root t c n h e =
    let (root', e', same) = >>=-eq-ok (root_prefix c) _ e in
    sym (ok_injective same) ∙ ap (λ r. r ++ timed_name t n) (ok_injective (sym e' ∙ h))

module _ {T : Type 0} (F : FragmentedStorage T) (contents : F.backend.State → Key → Option T)
    (lawful : IsLawful F.backend contents) (c : ChildProgram) (root : Key)
    (rooted : root_prefix c ≡ ok root) where
  open F use {fragment_type, backend}

  -- Deleting what is listed below the directory.
  delete_listed :
      (sub : Key) (dir : Key)
      → dir ≡ root ++ sub
      → (s : backend.State) (keys : List Key) (j : Key)
      → backend.all_matching s dir (time_pattern fragment_type) ≡ ok keys
      → Outside F.backend contents lawful root j
      → contents (delete_all backend keys s) j ≡ contents s j
  delete_listed sub dir d s keys j e o =
      let listed = ok_injective (sym (lawful.list_lem s dir (time_pattern fragment_type)) ∙ e) in
      delete_all_keeps backend contents lawful keys s j (
        listed-Outside backend contents lawful root sub (time_pattern fragment_type) j keys o
          (rw (← listed, ← d) (lawful.list_matches s dir (time_pattern fragment_type))))

  write_inside :
      (name : Key) (k : Key) (v : T)
      → k ≡ root ++ name
      → Keeps (outside backend contents lawful root) (backend.write_json k v)
  write_inside name k v e = record {
    run = λ s j o. ground (arith, lawful.write_lem s k v j, key_eq_iff k j, o name);
  }

  delete_in_progress_inside : Keeps (outside backend contents lawful root) (delete_in_progress F c)
  unfolding delete_in_progress modify
  delete_in_progress_inside = lift-Keeps λ r e. reads-Keeps _ _ λ s keys e' j o.
      delete_listed [] r (ok_injective (sym e ∙ rooted) ∙ sym (append-nil root)) s keys j e' o

  delete_depot_inside : Keeps (outside backend contents lawful root) (delete_depot_entries F c)
  unfolding delete_depot_entries modify
  delete_depot_inside = lift-Keeps λ d e.
      reads-Keeps _ _
        λ s keys e' j o. delete_listed (codes "depot/") d (depot-eq_root c rooted e) s keys j e' o

  update_inside :
      (obj : T) (n : ℕ)
      → Keeps (outside backend contents lawful root) (update_in_progress_object F c obj n)
  unfolding update_in_progress_object
  update_inside obj n = bind-Keeps delete_in_progress_inside λ _. lift-Keeps λ k e.
      write_inside (timed_name fragment_type n) k obj
        (in_progress-eq_root fragment_type c n rooted e)

  pub clean_inside :
      Keeps (outside backend contents lawful root) (clean_in_progress_and_depot_files F c)
  unfolding clean_in_progress_and_depot_files
  clean_inside = bind-Keeps delete_in_progress_inside λ _. delete_depot_inside

  fragments_inside :
      (live : Bool) (done : Key)
      → done ≡ root ++ done_name fragment_type
      → Keeps (outside backend contents lawful root) (read_fragments F c live done)
  unfolding read_fragments
  fragments_inside true done e =
      bind-Keeps (unchanged-outside backend contents lawful root _ (get_updated_object_state F c))
        λ updated. bind-Keeps (update_inside updated.0 (date_ms updated.1)) λ _. pure-Keeps _
  fragments_inside false done e =
      bind-Keeps (unchanged-outside backend contents lawful root _ (get_updated_object_state F c))
        λ updated.
          bind-Keeps
            (bind-Keeps (write_inside (done_name fragment_type) done updated.0 e)
              (λ _. clean_inside))
            λ _. pure-Keeps _

  read_branch_inside :
      (is_done live : Bool) (done : Key)
      → done ≡ root ++ done_name fragment_type
      → Keeps
          (outside backend contents lawful root)
          (if is_done then reads (λ s. backend.read_json s done) else read_fragments F c live done)
  read_branch_inside true live done e = reads_last-Keeps _
  read_branch_inside false live done e = fragments_inside live done e

  read_inside : (live : Bool) → Keeps (outside backend contents lawful root) (read F c live)
  unfolding read
  read_inside live = lift-Keeps λ done e. reads-Keeps _ _ λ s is_done _.
      (read_branch_inside is_done live done (done-eq_root fragment_type c rooted e)).run s

  -- Whether the program is live or not, and whether the read returns or throws at any point, a file
  -- that is not in the program's directory is as before.
  pub read_only_inside :
      (live : Bool) (s : backend.State) (j : Key)
      → ((x : Key) → j ≢ root ++ x)
      → contents (read F c live s).1 j ≡ contents s j
  read_only_inside live s j o = (read_inside live).run s j o

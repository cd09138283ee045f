-- ===== src/Storage/Fragmented/Final.antt =====
-- The last read of a fragmented file and the reads after it (fragmented-storage.ts).
use lil_bobby_tables_my_crt.Common.Tests.{
  ℕ, ◌≡◌, refl, sym, ap, ◌∙◌, ◌≢◌, Bool, true, false, Option, none, some, List, [], ◌∷◌, ◌++◌,
  arith, codes,
}
use lil_bobby_tables_my_crt.Common.Lists.{All, All-map_of}
use lil_bobby_tables_my_crt.Common.Exec.{ok, ok_injective}
use lil_bobby_tables_my_crt.Common.Action.{◌>>=◌}
use mathlib.Core.List.{append_assoc, append-nil}
use lil_bobby_tables_my_crt.Data.{ChildProgram}
use lil_bobby_tables_my_crt.Storage.Schema.{
  Key, FragmentType, Time, metrics, workload, time_pattern, root_prefix, depot_prefix, done_key,
  done_name, strip, match_timed, take_digits, drop_digits,
}
use lil_bobby_tables_my_crt.Storage.Schema.Matching.{strip-append}
use lil_bobby_tables_my_crt.Storage.Backend.{IsLawful, key_eq_iff}
use lil_bobby_tables_my_crt.Storage.Fragmented.{
  FragmentedStorage, get_updated_object, delete_all, delete_in_progress, delete_depot_entries,
  clean_in_progress_and_depot_files, read_fragments, read,
}
use lil_bobby_tables_my_crt.Storage.Fragmented.Frame.{get_updated_object_state, delete_all_keeps}

-- The done file's name is no fragment's name, and it is not in the depot.
done_name_no_fragment : (t : FragmentType) → time_pattern t (done_name t) ≡ false
unfolding time_pattern match_timed strip take_digits drop_digits
done_name_no_fragment metrics = refl
done_name_no_fragment workload = refl

abbrev first : Key → ℕ
first [] = 0
first (c ∷ s) = c

pub done_name_not_in_depot : (t : FragmentType) (x : Key) → codes "depot/" ++ x ≢ done_name t
done_name_not_in_depot metrics x e = absurd (omega (arith, ap first e))
done_name_not_in_depot workload x e = absurd (omega (arith, ap first e))

pub append_cancel : (p s t : Key) → p ++ s ≡ p ++ t → s ≡ t
append_cancel p s t e = ground (arith, sym (strip-append p s) ∙ ap (strip p) e ∙ strip-append p t)

module _ {T : Type 0} (F : FragmentedStorage T) (contents : F.backend.State → Key → Option T)
    (lawful : IsLawful F.backend contents) (c : ChildProgram) (root : Key)
    (rooted : root_prefix c ≡ ok root) where
  open F use {fragment_type, backend}

  abbrev done : Key
  done = root ++ done_name fragment_type

  listed_not_done :
      (sub : Key) (ks : List Key)
      → ((name : Key)
          → time_pattern fragment_type name ≡ true
          → sub ++ name ≢ done_name fragment_type)
      → All
          (λ k.
            (name : Key) × (k ≡ (root ++ sub) ++ name) × (time_pattern fragment_type name ≡ true))
          ks
      → All (λ k. k ≢ done) ks
  listed_not_done sub ks h =
      All-map_of _ _
        (λ k m e.
          h m.0 m.2 (append_cancel root _ _ (sym (append_assoc root sub m.0) ∙ sym m.1 ∙ e)))
        ks

  delete_listed_done :
      (sub dir : Key) (s : backend.State) (keys : List Key)
      → ((name : Key)
          → time_pattern fragment_type name ≡ true
          → sub ++ name ≢ done_name fragment_type)
      → dir ≡ root ++ sub
      → backend.all_matching s dir (time_pattern fragment_type) ≡ ok keys
      → contents (delete_all backend keys s) done ≡ contents s done
  delete_listed_done sub dir s keys h d e =
      let listed = ok_injective (sym (lawful.list_lem s dir (time_pattern fragment_type)) ∙ e) in
      delete_all_keeps backend contents lawful keys s done (
        listed_not_done sub keys h
          (rw (← listed, ← d) (lawful.list_matches s dir (time_pattern fragment_type))))

  done_key_lem : done_key fragment_type c ≡ ok done
  unfolding done_key
  done_key_lem = rw rooted refl

  pub depot_prefix_lem : depot_prefix c ≡ ok (root ++ codes "depot/")
  unfolding depot_prefix
  depot_prefix_lem = rw rooted refl

  -- Clearing the fragments succeeds and leaves the done file.
  clear_in_progress :
      (s : backend.State)
      → ((delete_in_progress F c s).0 ≡ ok tt)
        × (contents (delete_in_progress F c s).1 done ≡ contents s done)
  unfolding delete_in_progress ◌>>=◌
  clear_in_progress s =
      rw (rooted, lawful.list_lem s root (time_pattern fragment_type))
        (
          refl,
          delete_listed_done [] root s _
              (λ name m e. cc (m, e, done_name_no_fragment fragment_type)) (sym (append-nil root))
              (lawful.list_lem s root (time_pattern fragment_type)),
        )

  clear_depot :
      (s : backend.State)
      → ((delete_depot_entries F c s).0 ≡ ok tt)
        × (contents (delete_depot_entries F c s).1 done ≡ contents s done)
  unfolding delete_depot_entries ◌>>=◌
  clear_depot s =
      rw (depot_prefix_lem, lawful.list_lem s (root ++ codes "depot/") (time_pattern fragment_type))
        (
          refl,
          delete_listed_done (codes "depot/") (root ++ codes "depot/") s _
              (λ name m. done_name_not_in_depot fragment_type name) refl
              (lawful.list_lem s (root ++ codes "depot/") (time_pattern fragment_type)),
        )

  clean_done :
      (s : backend.State)
      → ((clean_in_progress_and_depot_files F c s).0 ≡ ok tt)
        × (contents (clean_in_progress_and_depot_files F c s).1 done ≡ contents s done)
  unfolding clean_in_progress_and_depot_files ◌>>=◌
  clean_done s =
      rw (clear_in_progress s).0 ((clear_depot _).0, (clear_depot _).1 ∙ (clear_in_progress s).1)

  -- A read of a done file returns it and changes nothing.
  read_done_lem :
      (live : Bool) (s : backend.State) (v : T)
      → contents s done ≡ some v
      → read F c live s ≡ (ok v, s)
  unfolding read ◌>>=◌
  read_done_lem live s v h =
      rw (done_key_lem, lawful.exists_lem s done) (rw h (rw (lawful.read_lem s done v h) refl))

  -- The state that the last read leaves.
  finished : backend.State → T → backend.State
  finished s v = (clean_in_progress_and_depot_files F c (backend.write_json done v s).1).1

  finished_done : (s : backend.State) (v : T) → contents (finished s v) done ≡ some v
  unfolding finished
  finished_done s v =
      (clean_done (backend.write_json done v s).1).1
      ∙ lawful.write_lem s done v done
      ∙ rw ((key_eq_iff done done).1 refl) refl

  read_fragments_final :
      (s : backend.State) (v : T) (time : Time)
      → (get_updated_object F c s).0 ≡ ok (v, time)
      → read_fragments F c false done s ≡ (ok v, finished s v)
  unfolding read_fragments finished ◌>>=◌
  read_fragments_final s v time u =
      rw (u, (get_updated_object_state F c).run s)
        (rw (lawful.write_ok s done v) (rw (clean_done (backend.write_json done v s).1).0 refl))

  read_final_eq :
      (s : backend.State) (v : T) (time : Time)
      → contents s done ≡ none
      → (get_updated_object F c s).0 ≡ ok (v, time)
      → read F c false s ≡ (ok v, finished s v)
  unfolding read ◌>>=◌
  read_final_eq s v time h u =
      rw (done_key_lem, lawful.exists_lem s done) (rw h (read_fragments_final s v time u))

  -- The last read of a program whose file is not done returns the merged fragments and keeps them as
  -- the done file; every later read, live or not, returns the same and changes no file.
  pub read_final_lem :
      (s : backend.State) (v : T) (time : Time)
      → contents s done ≡ none
      → (get_updated_object F c s).0 ≡ ok (v, time)
      → ((read F c false s).0 ≡ ok v)
        × (contents (read F c false s).1 (root ++ done_name fragment_type) ≡ some v)
        × ((live : Bool) → read F c live (read F c false s).1 ≡ (ok v, (read F c false s).1))
  read_final_lem s v time h u =
      rw (read_final_eq s v time h u)
        (refl, finished_done s v, λ live. read_done_lem live (finished s v) v (finished_done s v))

-- ===== src/Storage/Fragmented/Frame.antt =====
-- Which files a read of a fragmented file may change (fragmented-storage.ts).
use lil_bobby_tables_my_crt.Common.Tests.{
  ap, ◌≡◌, refl, sym, ◌∙◌, ◌≢◌, inl, inr, Bool, true, Option, none, some, List, [], ◌∷◌, ◌++◌,
  arith, Bool-cases,
}
use lil_bobby_tables_my_crt.Common.Action.Keeps.{
  reads_last-Keeps, pure-Keeps, Frame, Keeps, bind-Keeps, lift-Keeps, reads-Keeps,
}
use lil_bobby_tables_my_crt.Common.Lists.{All, All-map_of}
use mathlib.Core.List.{append_assoc}
use lil_bobby_tables_my_crt.Storage.Fragmented.{
  Error, Action, FragmentedStorage, read_or_default, get_latest_in_progress_object, absorb,
  get_updated_object, delete_all, latest_key, last_time, later,
}
use lil_bobby_tables_my_crt.Data.{ChildProgram}
use lil_bobby_tables_my_crt.Storage.Schema.{Key, Time, time_from_key}
use lil_bobby_tables_my_crt.Storage.Backend.{StorageBackend, IsLawful, key_eq_iff}

-- The state stays as it was.
abbrev pub unchanged : (S : Type 0) → Frame S
unchanged S = record { Rel = λ s t. t ≡ s; reflexive = λ s. refl; transitive = λ p q. q ∙ p }

module _ {T : Type 0} (F : FragmentedStorage T) where
  open F use {fragment_type, backend, default_object, merge_objects}

  absorb_state :
      (last : Time) (ks : List Key) (acc : T × Time)
      → Keeps (unchanged backend.State) (absorb F last ks acc)
  unfolding absorb
  absorb_state last [] acc = pure-Keeps _
  absorb_state last (k ∷ ks) (result, time) =
      elim (Bool-cases (later (time_from_key fragment_type k) last)) [
        | inl e ↦ rw e (
            reads-Keeps _ _ λ s sample _.
              (absorb_state last ks
                  (merge_objects result sample, time_from_key fragment_type k)).run
                s)
        | inr e ↦ rw e (absorb_state last ks (result, time))
      ]

  read_or_default_state : (k : Option Key) → Keeps (unchanged backend.State) (read_or_default F k)
  unfolding read_or_default
  read_or_default_state none = pure-Keeps _
  read_or_default_state (some k) = reads_last-Keeps _

  latest_state :
      (c : ChildProgram) → Keeps (unchanged backend.State) (get_latest_in_progress_object F c)
  unfolding get_latest_in_progress_object
  latest_state c = lift-Keeps λ root _. reads-Keeps _ _ λ s keys _.
      (bind-Keeps (read_or_default_state (latest_key fragment_type keys)) (λ a. pure-Keeps _)).run s

  -- Merging the fragments changes no file.
  pub get_updated_object_state :
      (c : ChildProgram) → Keeps (unchanged backend.State) (get_updated_object F c)
  unfolding get_updated_object
  get_updated_object_state c = bind-Keeps (latest_state c) λ found. lift-Keeps λ depot _.
      reads-Keeps _ _ λ s keys _. (absorb_state (last_time fragment_type found.0) keys _).run s

module _ {T : Type 0} (B : StorageBackend T) (contents : B.State → Key → Option T)
    (lawful : IsLawful B contents) where
  -- A key that is none of those deleted keeps its file.
  pub delete_all_keeps :
      (ks : List Key) (s : B.State) (j : Key)
      → All (λ k. k ≢ j) ks
      → contents (delete_all B ks s) j ≡ contents s j
  unfolding delete_all
  delete_all_keeps [] s j h = refl
  delete_all_keeps (k ∷ ks) s j (p, h) =
      delete_all_keeps ks (B.delete_json k s).1 j h
      ∙ ground (arith, lawful.delete_lem s k j, key_eq_iff k j)

  -- The files outside a directory stay as they are.
  abbrev pub Outside : Key → Key → Type 0
  Outside dir j = (x : Key) → j ≢ dir ++ x

  abbrev pub outside : Key → Frame B.State
  outside dir = record {
    Rel = λ s s'. (j : Key) → Outside dir j → contents s' j ≡ contents s j;
    reflexive = λ s j _. refl;
    transitive = λ p q j o. q j o ∙ p j o;
  }

  pub listed-Outside :
      (dir sub : Key) (f : Key → Bool) (j : Key) (ks : List Key)
      → Outside dir j
      → All (λ k. (name : Key) × (k ≡ (dir ++ sub) ++ name) × (f name ≡ true)) ks
      → All (λ k. k ≢ j) ks
  listed-Outside dir sub f j ks o =
      All-map_of _ _ (λ k m e. o (sub ++ m.0) (sym e ∙ m.1 ∙ append_assoc dir sub m.0)) ks

  pub unchanged-outside :
      {A : Type 0} (dir : Key) (m : Action B.State Error A)
      → Keeps (unchanged B.State) m
      → Keeps (outside dir) m
  unchanged-outside dir m h = record { run = λ s j _. ap (λ s. contents s j) (h.run s) }

-- ===== src/Storage/Fragmented.antt =====
-- common/src/storage/fragmented-storage.ts: a file that grows by samples in a depot. A read of a live
-- program keeps the merged samples in an in-progress file; the last read writes the done file.
pub mod Frame
pub mod Outside
pub mod Final
pub mod Merging
pub mod Listed
pub mod Samples
pub mod Sampled
use lil_bobby_tables_my_crt.Common.Tests.{
  ℕ, zero, suc, ◌+◌, Bool, Option, none, some, List, [], ◌∷◌, ltb, if◌then◌else◌,
}
use lil_bobby_tables_my_crt.Common.Action.{Action, ◌>>=◌, ◌>>◌, pure, reads, lift, modify}
use mathlib.Core.List.{foldl}
use lil_bobby_tables_my_crt.Data.{ChildProgram}
use lil_bobby_tables_my_crt.Storage.Schema.{
  Key, Error, FragmentType, Time, minus_one, min_value, at, time_from_key, time_pattern,
  root_prefix, depot_prefix, done_key, in_progress_key,
}
use lil_bobby_tables_my_crt.Storage.Backend.{StorageBackend}

-- The order of the times as JavaScript numbers: -1, 0, `Number.MIN_VALUE`, 1, 2, …
abbrev pub rank : Time → ℕ
rank minus_one = 0
rank min_value = 2
rank (at zero) = 1
rank (at (suc n)) = n + 3

-- `a > b`
abbrev pub later : Time → Time → Bool
later a b = ltb (rank b) (rank a)

-- `new Date(time).getTime()`, which cuts off the fraction. No sample has the time -1, since the code
-- asks it to be later than `Number.MIN_VALUE`.
abbrev pub date_ms : Time → ℕ
date_ms (at n) = n
date_ms _ = 0

-- The loop of `getLatestInProgressObject`.
unfoldable pub newest : FragmentType → Option Key × Time → Key → Option Key × Time
newest t (key, last) k =
    let time = time_from_key t k in if later time last then (some k, time) else (key, last)

unfoldable pub latest_key : FragmentType → List Key → Option Key
unfolding newest
latest_key t keys = (foldl (newest t) (none, min_value) keys).0

-- `getTimeFromKey(key)`, or `Number.MIN_VALUE` if there is no key.
abbrev pub last_time : FragmentType → Option Key → Time
last_time t none = min_value
last_time t (some k) = time_from_key t k

-- `keys.forEach(async (key) => { await this.backend.deleteJson(key); })`. The deletions are started in
-- order and not awaited, and what they reject is dropped; here each is done when it is started,
-- so that no later write comes before it.
unfoldable pub delete_all : {T : Type 0} (B : StorageBackend T) → List Key → B.State → B.State
delete_all B [] s = s
delete_all B (k ∷ ks) s = delete_all B ks (B.delete_json k s).1

-- The class with its abstract methods; `objectToString` is only logged.
pub record FragmentedStorage (T : Type 0) : Type 1 where
  pub fragment_type : FragmentType
  pub backend : StorageBackend T
  pub default_object : T
  pub merge_objects : T → T → T

module _ {T : Type 0} (F : FragmentedStorage T) where
  open F use {fragment_type, backend, default_object, merge_objects}

  abbrev pub Do : Type 0 → Type 0
  Do A = Action backend.State Error A

  read_or_default : Option Key → Do T
  read_or_default none = pure default_object
  read_or_default (some k) = reads (λ s. backend.read_json s k)

  unfoldable pub get_latest_in_progress_object : ChildProgram → Do (Option Key × T)
  unfolding read_or_default
  get_latest_in_progress_object c = do
    root ← lift (root_prefix c)
    keys ← reads (λ s. backend.all_matching s root (time_pattern fragment_type))
    result ← read_or_default (latest_key fragment_type keys)
    pure (latest_key fragment_type keys, result)

  -- The loop of `getUpdatedObject` over the depot's keys.
  unfoldable pub absorb : Time → List Key → T × Time → Do (T × Time)
  absorb last [] acc = pure acc
  absorb last (k ∷ ks) (result, new_time) =
      let time = time_from_key fragment_type k in
      let skip = absorb last ks (result, new_time) in
      let take = reads (λ s. backend.read_json s k) >>= λ sample.
      absorb last ks (merge_objects result sample, time) in
      if later time last then take else skip

  unfoldable pub get_updated_object : ChildProgram → Do (T × Time)
  get_updated_object c = do
    found ← get_latest_in_progress_object c
    let last = last_time fragment_type found.0
    depot ← lift (depot_prefix c)
    keys ← reads (λ s. backend.all_matching s depot (time_pattern fragment_type))
    absorb last keys (found.1, last)

  unfoldable pub delete_in_progress : ChildProgram → Do (Unit {0})
  delete_in_progress c = do
    root ← lift (root_prefix c)
    keys ← reads (λ s. backend.all_matching s root (time_pattern fragment_type))
    modify (delete_all backend keys)

  unfoldable pub delete_depot_entries : ChildProgram → Do (Unit {0})
  delete_depot_entries c = do
    depot ← lift (depot_prefix c)
    keys ← reads (λ s. backend.all_matching s depot (time_pattern fragment_type))
    modify (delete_all backend keys)

  unfoldable pub clean_in_progress_and_depot_files : ChildProgram → Do (Unit {0})
  clean_in_progress_and_depot_files c = do delete_in_progress c; delete_depot_entries c

  unfoldable pub update_in_progress_object : ChildProgram → T → ℕ → Do (Unit {0})
  update_in_progress_object c obj date = do
    delete_in_progress c
    key ← lift (in_progress_key fragment_type c date)
    backend.write_json key obj

  -- The branch of `read` for a file that is not done.
  unfoldable pub read_fragments : ChildProgram → Bool → Key → Do T
  read_fragments c live done = do
    updated ← get_updated_object c
    (if live
        then update_in_progress_object c updated.0 (date_ms updated.1)
        else (backend.write_json done updated.0 >> clean_in_progress_and_depot_files c))
    pure updated.0

  unfoldable pub read : ChildProgram → Bool → Do T
  read c live = do
    done ← lift (done_key fragment_type c)
    is_done ← reads (λ s. backend.exists s done)
    (if is_done then reads (λ s. backend.read_json s done) else read_fragments c live done)

-- ===== src/Tests/Projecting.antt =====
-- The theorems on projections at a projection that counts the events of each type, over the sample
-- store.
use marmosa.Common.{
  ℕ, ◌≡◌, ◌≢◌, refl, false, Option, none, some, List, [], ◌∷◌, Str, str, list_beq, last, nat_eq,
  list_eq,
}
use marmosa.Text.{strip_prefix}
use marmosa.Exec.Rules.{Runs}
use marmosa.Ports.{is_below}
use marmosa.InMemory.{new}
use marmosa.InMemory.Map
use marmosa.InMemory.Map.{BTreeMap}
use marmosa.InMemory.Reliable.{in_memory-IsReliable}
use marmosa.Projections.{ProjectionWrapper, ProjectionCheckpoint, ProjectionMetadata, Formats}
use marmosa.Projections.Contract.{AreLossless, nothing_stored, updated}
use marmosa.Projections.Flagged.{Flagged}
use marmosa.Projections.Store.{StorageBackendProjectionStore, get_projection_path, get, clear}
use marmosa.Projections.Store.Save.{save, delete}
use marmosa.Projections.Store.Laws.{stored_in, view}
use marmosa.Projections.Store.Keyed.{HoldsStates, Owned, save_lem}
use marmosa.Projections.Store.RoundTrip.{get-save, get-delete, get-clear}
use marmosa.Tests.Samples.{
  Doc, wrapper_doc, checkpoint_doc, metadata_doc, keys_doc, platform, lawful, empty_store,
}

abbrev wrapper_from : Doc → Option (ProjectionWrapper ℕ)
wrapper_from (wrapper_doc w) = some w
wrapper_from _ = none

abbrev checkpoint_from : Doc → Option ProjectionCheckpoint
checkpoint_from (checkpoint_doc c) = some c
checkpoint_from _ = none

abbrev metadata_from : Doc → Option (BTreeMap ProjectionMetadata)
metadata_from (metadata_doc m) = some m
metadata_from _ = none

abbrev keys_from : Doc → Option (List Str)
keys_from (keys_doc ks) = some ks
keys_from _ = none

abbrev pub formats : Formats Doc ℕ
formats = record {
  state_json = record { to_vec = λ n. none; from_slice = λ d. none };
  wrapper_json = record { to_vec = λ w. some (wrapper_doc w); from_slice = wrapper_from };
  checkpoint_json = record { to_vec = λ c. some (checkpoint_doc c); from_slice = checkpoint_from };
  metadata_json = record { to_vec = λ m. some (metadata_doc m); from_slice = metadata_from };
  keys_json = record { to_vec = λ ks. some (keys_doc ks); from_slice = keys_from };
}

abbrev pub lossless : AreLossless formats
lossless = record {
  wrapper = record { round_trip = λ w. (wrapper_doc w, refl, refl) };
  checkpoint = record { round_trip = λ c. (checkpoint_doc c, refl, refl) };
  metadata = record { round_trip = λ m. (metadata_doc m, refl, refl) };
}

-- A state has the tag of its parity.
abbrev pub counters : StorageBackendProjectionStore (Flagged platform.backend.State) ℕ
counters = record {
  projection_name = str "Counters";
  tag_provider = some (λ n. record { key = str "Count"; value = n ∷ [] } ∷ []);
  clock = λ w. 5;
}

abbrev pub world : Flagged platform.backend.State
world = record { storage = empty_store; skip_index_writes = false }

pub world-HoldsStates :
    HoldsStates platform formats counters lawful.reliable nothing_stored
      (view platform formats counters lawful.reliable world)
unfolding stored_in new Map.get Map.empty in_memory-IsReliable
world-HoldsStates key plain = refl

-- The store behind a state that was saved under one key
abbrev one_saved : Runs (save platform formats counters (str "a") 3 world) (λ _ w'.
    HoldsStates platform formats counters lawful.reliable
      (updated (str "a") (some 3) nothing_stored)
      (view platform formats counters lawful.reliable w')
    × Owned platform formats counters lawful.reliable
        (view platform formats counters lawful.reliable world)
        (view platform formats counters lawful.reliable w'))
one_saved =
    save_lem platform formats counters lawful.reliable lossless.wrapper (str "a") 3 nothing_stored
      world refl world-HoldsStates

abbrev saved_world : Flagged platform.backend.State
saved_world = one_saved.1

get-save_example : Runs (save platform formats counters (str "b") 4 saved_world) (λ _ w'.
    Runs (get platform formats counters (str "a") w') (λ found _.
      found ≡ updated (str "b") (some 4) (updated (str "a") (some 3) nothing_stored) (str "a")))
get-save_example =
    get-save platform formats counters lawful.reliable lossless.wrapper (str "b") (str "a") 4
      (updated (str "a") (some 3) nothing_stored) saved_world refl refl one_saved.3.0

get-delete_example : Runs (delete platform formats counters (str "a") saved_world) (λ _ w'.
    Runs (get platform formats counters (str "a") w') (λ found _.
      found ≡ updated (str "a") none (updated (str "a") (some 3) nothing_stored) (str "a")))
get-delete_example =
    get-delete platform formats counters lawful.reliable (str "a") (str "a")
      (updated (str "a") (some 3) nothing_stored) saved_world refl refl one_saved.3.0

pub named : last (get_projection_path platform formats counters) ≢ some b'/'
unfolding get_projection_path
named e = cc

outside :
    is_below (get_projection_path platform formats counters) (str "Events/0000000000.json") ≡ false
unfolding get_projection_path is_below strip_prefix list_beq
outside = refl

get-clear_example : Runs (clear platform formats counters saved_world) (λ _ w'.
    Runs (get platform formats counters (str "a") w') (λ found _. found ≡ none)
    × ((view platform formats counters lawful.reliable w').file (str "Events/0000000000.json")
        ≡ (view platform formats counters lawful.reliable saved_world).file
            (str "Events/0000000000.json")))
get-clear_example =
    get-clear platform formats counters lawful.reliable (str "a") (str "Events/0000000000.json")
      saved_world named refl outside

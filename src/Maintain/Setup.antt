-- ===== src/Maintain/Setup.antt =====
-- src/event_store/initializer.rs: the directories and the ledger of a named store.
use marmosa.Common.{◌++◌, Str, str, if◌then◌else◌}
use marmosa.Exec.{io_error, Exec, pure, attempt, ignore, ok_or, ◌>>=◌, ◌>>◌}
use marmosa.Ports.{Platform}
use marmosa.Maintain.Options.{OpossumOptions}
use marmosa.Maintain.Ledger.{is_not_found}

unfoldable pub get_context_path : OpossumOptions → Str → Str
get_context_path options context = options.root_path ++ (str "/" ++ context)

unfoldable pub get_events_path : OpossumOptions → Str → Str
get_events_path options context = options.root_path ++ (str "/" ++ (context ++ str "/Events"))

unfoldable pub get_ledger_path : OpossumOptions → Str → Str
get_ledger_path options context = options.root_path ++ (str "/" ++ (context ++ str "/.ledger"))

unfoldable pub get_event_type_index_path : OpossumOptions → Str → Str
get_event_type_index_path options context =
    options.root_path ++ (str "/" ++ (context ++ str "/Indices/EventType"))

unfoldable pub get_tags_index_path : OpossumOptions → Str → Str
get_tags_index_path options context =
    options.root_path ++ (str "/" ++ (context ++ str "/Indices/Tags"))

module _ (p : Platform) where
  open p use {empty_file, backend}
  open p.backend use {State}

  -- `StorageInitializer::initialize`
  unfoldable pub initialize : OpossumOptions → Exec State (Unit {0})
  unfolding get_context_path get_events_path get_event_type_index_path get_tags_index_path
      get_ledger_path is_not_found
  initialize options = do
    store_name ← ok_or io_error options.store_name
    ignore (backend.create_dir_all options.root_path)
    ignore (backend.create_dir_all (get_context_path options store_name))
    ignore (backend.create_dir_all (get_events_path options store_name))
    ignore
        (backend.create_dir_all (options.root_path ++ (str "/" ++ (store_name ++ str "/Indices"))))
    ignore (backend.create_dir_all (get_event_type_index_path options store_name))
    ignore (backend.create_dir_all (get_tags_index_path options store_name))
    content ← attempt (backend.read_file (get_ledger_path options store_name))
    if is_not_found content
        then ignore (backend.write_file (get_ledger_path options store_name) empty_file)
        else pure tt

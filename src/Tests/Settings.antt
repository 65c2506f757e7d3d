-- ===== src/Tests/Settings.antt =====
-- The theorems on the options and the harness, at inputs of their own.
use marmosa.Common.{
  ℕ, ◌≡◌, refl, Bool, true, false, ◌||◌, none, some, List, [], ◌∷◌, ◌++◌, if◌then◌else◌, str,
  nat_eq, list_eq, list_beq, ◌==◌, contains,
}
use marmosa.Ports.{is_some}
use marmosa.Decision.{Decision, decided}
use marmosa.Decision.Harness.{replay, when, when-replay}
use marmosa.Maintain.Options.{
  OpossumOptions, is_blank, looks_absolute, eq_ignore_ascii_case, root_failures, name_failures,
  validate, validate_sound,
}
use marmosa.Tests.Samples.{batch, opened}

abbrev is_space : ℕ → Bool
is_space c = c == b' '

abbrev fresh : OpossumOptions
fresh = record { root_path = str "/data"; store_name = none; flush_events_immediately = true }

abbrev named : OpossumOptions
named = record {
  root_path = str "/data";
  store_name = some (str "shop");
  flush_events_immediately = true;
}

named_valid : validate is_space looks_absolute named ≡ []
unfolding validate root_failures name_failures is_blank looks_absolute eq_ignore_ascii_case list_beq
named_valid = refl

validate_sound_example :
    (is_blank is_space named.root_path ≡ false)
    × (looks_absolute named.root_path ≡ true)
    × ((contains b'|' named.root_path || contains 0 named.root_path) ≡ false)
    × (is_some named.store_name ≡ true)
validate_sound_example = validate_sound is_space looks_absolute named named_valid

-- It strings the positions of the events together, and makes events where there is a third one.
abbrev lister : Decision (List ℕ)
lister = record {
  projection = record {
    initial_state = [];
    query = opened;
    apply = λ seen r. seen ++ r.position ∷ [];
  };
  process = λ seen. decided (if contains 3 seen then batch else []);
}

when-replay_example : when batch lister ≡ lister.process (replay lister.projection 1 batch [])
when-replay_example = when-replay batch lister

-- ===== src/Domain.antt =====
-- src/domain.rs: events, queries and their matching, append conditions, read options, results.
use Prim.Native.Nat.{bit_and}
use marmosa.Common.{
  ℕ, Bool, true, false, ◌&&◌, ◌||◌, Option, none, some, List, [], ◌∷◌, Str, str, Eq, ◌==◌, nat_eq,
  list_eq, ◌≡◌, ◌↔◌, arith, if◌then◌else◌, is_empty, any, all,
}
use marmosa.Text.{to_string}

pub record Tag : Type 0 where
  pub key : Str
  pub value : Str

pub record DomainEvent : Type 0 where
  pub event_type : Str
  pub content : Str
  pub tags : List Tag

pub record EventData : Type 0 where
  pub event_id : Str
  pub event : DomainEvent
  pub metadata : Option Str

pub record EventRecord : Type 0 where
  pub position : ℕ
  pub event_id : Str
  pub event : DomainEvent
  pub metadata : Option Str
  pub timestamp : ℕ

pub record QueryItem : Type 0 where
  pub event_types : List Str
  pub tags : List Tag

pub record Query : Type 0 where
  pub items : List QueryItem

-- `Query::all()`
abbrev pub query_all : Query
query_all = record { items = [] }

pub record AppendCondition : Type 0 where
  pub fail_if_events_match : Query
  pub after_sequence_position : Option ℕ

abbrev same_tag : Tag → Tag → Bool
same_tag a b = a.key == b.key && a.value == b.value

pub same_tag_iff : (a b : Tag) → (same_tag a b ≡ true) ↔ (a ≡ b)
same_tag_iff a b =
    ground (arith, (list_eq {A = ℕ}).beq_iff a.key b.key, (list_eq {A = ℕ}).beq_iff a.value b.value)

instance abbrev pub tag_eq : Eq Tag
tag_eq = record { beq = same_tag; beq_iff = same_tag_iff }

abbrev same_item : QueryItem → QueryItem → Bool
same_item a b = a.event_types == b.event_types && a.tags == b.tags

pub same_item_iff : (a b : QueryItem) → (same_item a b ≡ true) ↔ (a ≡ b)
same_item_iff a b = ground (
  arith,
  (list_eq {A = Str}).beq_iff a.event_types b.event_types,
  (list_eq {A = Tag}).beq_iff a.tags b.tags,
)

instance abbrev pub query_item_eq : Eq QueryItem
query_item_eq = record { beq = same_item; beq_iff = same_item_iff }

-- `type_match` of `Query::matches`
unfoldable pub type_match : QueryItem → EventRecord → Bool
type_match item r = is_empty item.event_types || any (λ t. t == r.event.event_type) item.event_types

-- `tag_match` of `Query::matches`
unfoldable pub tag_match : QueryItem → EventRecord → Bool
tag_match item r =
    is_empty item.tags
    || all (λ t. any (λ rt. rt.key == t.key && rt.value == t.value) r.event.tags) item.tags

-- The loop of `Query::matches`
unfoldable pub matches_some : List QueryItem → EventRecord → Bool
unfolding type_match tag_match
matches_some [] r = false
matches_some (item ∷ items) r =
    let rest = matches_some items r in if type_match item r && tag_match item r then true else rest

-- `Query::matches`
unfoldable pub matches : Query → EventRecord → Bool
unfolding matches_some
matches q r = if is_empty q.items then true else matches_some q.items r

-- `ReadOption`: a set of flags in a `u32`.
pub record ReadOption : Type 0 where
  pub flags : ℕ

abbrev pub none_option : ReadOption
none_option = record { flags = 0 }

abbrev pub descending : ReadOption
descending = record { flags = 1 }

abbrev same_option : ReadOption → ReadOption → Bool
same_option a b = a.flags == b.flags

pub same_option_iff : (a b : ReadOption) → (same_option a b ≡ true) ↔ (a ≡ b)
same_option_iff a b = ground arith

instance abbrev pub read_option_eq : Eq ReadOption
read_option_eq = record { beq = same_option; beq_iff = same_option_iff }

-- `ReadOption::has_flag`
unfoldable pub has_flag : ReadOption → ReadOption → Bool
has_flag o flag = if flag.flags == 0 then true else bit_and o.flags flag.flags == flag.flags

-- `impl Display for ReadOption`
unfoldable pub option_name : ReadOption → Str
option_name o =
    if o.flags == 0
    then str "None"
    else if o.flags == 1
    then str "Descending"
    else to_string o.flags

-- `impl FromStr for ReadOption`
unfoldable pub option_from_str : Str → Option ReadOption
option_from_str s =
    if s == str "None"
    then some none_option
    else if s == str "Descending"
    then some descending
    else none

-- `CommandResultWith<T>`; `CommandResult` is the one without a value.
pub record CommandResultWith {ℓ} (T : Type ℓ) : Type ℓ where
  pub success : Bool
  pub value : Option T
  pub error_message : Option Str

pub record CommandResult : Type 0 where
  pub success : Bool
  pub error_message : Option Str

unfoldable pub command_ok : CommandResult
command_ok = record { success = true; error_message = none }

unfoldable pub command_fail : Str → CommandResult
command_fail message = record { success = false; error_message = some message }

module _ {ℓ} {T : Type ℓ} where
  unfoldable pub command_ok_with : T → CommandResultWith T
  command_ok_with value = record { success = true; value = some value; error_message = none }

  unfoldable pub command_fail_with : Str → CommandResultWith T
  command_fail_with message = record { success = false; value = none; error_message = some message }

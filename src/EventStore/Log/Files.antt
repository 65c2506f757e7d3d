-- ===== src/EventStore/Log/Files.antt =====
-- The directory `Events` of a storage that represents a log: which names it lists, and which
-- positions the names show.
use marmosa.Common.{
  ℕ, ◌<◌, ◌≡◌, refl, ap, sym, ◌∙◌, true, ◌&&◌, some, List, [], ◌∷◌, arith, Str, str, ◌==◌, nat_eq,
  list_eq, beq_refl, contains, Distinct, All, Bool-ext, inl, inr, Bool-cases, Option-cases,
}
use marmosa.Text.{u64_mod, event_file, strip_prefix}
use marmosa.Text.FileName.{file_stem_plain, position_of_file-event_file, event_file-injective}
use marmosa.Domain.{EventRecord}
use marmosa.Ports.{Platform, Disk, IsLossless, is_child, is_some}
use marmosa.EventStore.Read.{file_positions}
use marmosa.EventStore.Log.{Represents, record_at, encoded, positions_of}
use marmosa.EventStore.Log.Positions.{positions_of_bounds}

abbrev events_file : ℕ → Str
events_file n = event_file (str "Events") n

pub is_child-event_file : (n : ℕ) → is_child (str "Events/") (event_file (str "Events") n) ≡ true
unfolding is_child event_file strip_prefix
is_child-event_file n = rw (file_stem_plain n)

pub record_at-some :
    (q : Str) (log : List EventRecord) (r : EventRecord)
    → record_at q log ≡ some r
    → (q ≡ event_file (str "Events") r.position) × (contains r.position (positions_of log) ≡ true)
unfolding record_at
record_at-some q [] r h = cc
record_at-some q (x ∷ xs) r h =
    ground (arith, record_at-some q xs r, (list_eq {A = ℕ}).beq_iff q (events_file x.position))

pub record_at-event_file :
    (k : ℕ) (log : List EventRecord)
    → contains k (positions_of log) ≡ true
    → (r : EventRecord) × (record_at (event_file (str "Events") k) log ≡ some r)
unfolding record_at
record_at-event_file k [] h = cc
record_at-event_file k (x ∷ xs) h = elim (Bool-cases (events_file k == events_file x.position)) [
  | inl same ↦ (x, rw (same, record_at))
  | inr differ ↦
      rw (differ, record_at)
        (record_at-event_file k xs (
          ground
            (arith, h, differ, (list_eq {A = ℕ}).beq_iff (events_file k) (events_file x.position))))
]

-- A name in the directory of events.
abbrev IsEventFile : List EventRecord → Str → Type 0
IsEventFile log q =
    (n : ℕ) × (n < u64_mod) × (q ≡ events_file n) × (contains n (positions_of log) ≡ true)

All-of_contains :
    (P : Str → Type 0) (xs : List Str) → ((q : Str) → contains q xs ≡ true → P q) → All P xs
All-of_contains P [] f = tt
All-of_contains P (x ∷ xs) f =
    (f x (ground (arith, beq_refl x)), All-of_contains P xs (λ q h. f q (ground arith)))

contains-file_positions :
    (k : ℕ) (log : List EventRecord) (names : List Str)
    → k < u64_mod
    → All (IsEventFile log) names
    → contains k (file_positions names) ≡ contains (events_file k) names
unfolding file_positions
contains-file_positions k log [] b h = refl
contains-file_positions k log (q ∷ qs) b ((n, fits, e, m), rest) = ground (
  arith,
  position_of_file-event_file (str "Events") n fits,
  e,
  contains-file_positions k log qs b rest,
  (list_eq {A = ℕ}).beq_iff q (events_file k),
  event_file-injective (str "Events") n k fits b,
)

file_positions_members :
    (k : ℕ) (log : List EventRecord) (names : List Str)
    → All (IsEventFile log) names
    → contains k (file_positions names) ≡ true
    → contains k (positions_of log) ≡ true
unfolding file_positions
file_positions_members k log [] b h = cc
file_positions_members k log (q ∷ qs) ((n, fits, e, m), rest) h = ground (
  arith,
  position_of_file-event_file (str "Events") n fits,
  e,
  m,
  file_positions_members k log qs rest,
)

file_positions-Distinct :
    (log : List EventRecord) (names : List Str)
    → All (IsEventFile log) names
    → Distinct names
    → Distinct (file_positions names)
unfolding file_positions
file_positions-Distinct log [] h d = tt
file_positions-Distinct log (q ∷ qs) ((n, fits, e, m), rest) d = ground (
  arith,
  position_of_file-event_file (str "Events") n fits,
  e,
  contains-file_positions n log qs fits rest,
  file_positions-Distinct log qs rest d.1,
)

module _ (p : Platform) (lossless : IsLossless p.event_json) (log : List EventRecord)
    (d : Disk p.Bytes) (rep : Represents p log d) where
  positions_of-fits : (k : ℕ) → contains k (positions_of log) ≡ true → k < u64_mod
  positions_of-fits k h = omega (arith, positions_of_bounds 0 k log rep.numbered h, rep.fits)

  -- The record at a position of the log, and the content of its file.
  pub event_content :
      (k : ℕ)
      → contains k (positions_of log) ≡ true
      → (r : EventRecord) × (c : p.Bytes) × (r.position ≡ k)
        × (record_at (events_file k) log ≡ some r)
        × (d.file (events_file k) ≡ some c)
        × (p.event_json.from_slice c ≡ some r)
  unfolding encoded
  event_content k h =
      let (r, found) = record_at-event_file k log h in
      let (name, m) = record_at-some (events_file k) log r found in
      let (c, written, read) = lossless.round_trip r in
      (
        r,
        c,
        sym (
            event_file-injective (str "Events") k r.position (positions_of-fits k h)
              (positions_of-fits r.position m) name),
        found,
        rep.events (events_file k) (is_child-event_file k) ∙ (rw (found, encoded) written),
        read,
      )

  -- What `read_dir` lists of the directory `Events`.
  module _ (names : List Str) (distinct : Distinct names)
      (listed : (q : Str)
        → contains q names ≡ (is_child (str "Events/") q && is_some (d.file q))) where
    names-IsEventFile : (q : Str) → contains q names ≡ true → IsEventFile log q
    names-IsEventFile q h = elim (Option-cases (record_at q log)) [
      | inl missing ↦ absurd (unfold encoded in ground (arith, listed q, rep.events q, missing))
      | inr (r, found) ↦
          let (name, m) = record_at-some q log r found in
          (r.position, positions_of-fits r.position m, name, m)
    ]

    abbrev named : All (IsEventFile log) names
    named = All-of_contains (IsEventFile log) names names-IsEventFile

    listed_all :
        (k : ℕ) → contains k (positions_of log) ≡ true → contains k (file_positions names) ≡ true
    listed_all k h =
        let (r, c, at, found, stored, read) = event_content k h in
        contains-file_positions k log names (positions_of-fits k h) named
        ∙ (listed (events_file k) ∙ (rw (is_child-event_file k) (ap is_some stored)))

    -- The names show the positions of the log, each of them once.
    pub contains-listed :
        (k : ℕ) → contains k (file_positions names) ≡ contains k (positions_of log)
    contains-listed k = Bool-ext _ _ (file_positions_members k log names named) (listed_all k)

    pub listed-Distinct : Distinct (file_positions names)
    listed-Distinct = file_positions-Distinct log names named distinct

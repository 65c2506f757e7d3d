-- ===== src/EventStore/Append/Record.antt =====
-- One event appended to a storage that represents a log: its file and its index entries.
use marmosa.Common.{
  ℕ, suc, ◌+◌, ◌<◌, ◌≡◌, refl, Bool, true, false, ◌&&◌, Option, none, some, List, [], ◌∷◌, ◌++◌,
  arith, Str, str, ◌==◌, nat_eq, list_eq, length, length-append, any, any-false, any-append,
  contains, Bool-cases, Option-cases, inl, inr,
}
use marmosa.Text.{u64_mod, event_file, strip_prefix}
use marmosa.Text.FileName.{event_file-injective}
use marmosa.Domain.{Tag, EventRecord}
use marmosa.Exec.Rules.{Runs}
use marmosa.Ports.{Platform, Disk, IsLawful, write, is_child, is_some}
use marmosa.EventStore.Indices.{type_path, tag_path}
use marmosa.EventStore.Indices.Laws.{index_at, Adds, IndexLocksFree, add_event_to_indices_lem}
use marmosa.EventStore.Append.{append_record}
use marmosa.EventStore.Log.{NumberedFrom, Represents, IsIndexFile, record_at, encoded, indexes}
use marmosa.EventStore.Log.Positions.{positions_of_bounds}
use marmosa.EventStore.Log.Files.{record_at-some}

pub NumberedFrom-append :
    (n : ℕ) (log : List EventRecord) (r : EventRecord)
    → NumberedFrom n log
    → r.position ≡ n + length log
    → NumberedFrom n (log ++ r ∷ [])
NumberedFrom-append n [] r h e = (omega arith, tt)
NumberedFrom-append n (x ∷ xs) r h e = (h.0, NumberedFrom-append (suc n) xs r h.1 (omega arith))

-- The first record with a path, or else a later one.
or_else : Option EventRecord → Option EventRecord → Option EventRecord
or_else none o = o
or_else (some r) o = some r

record_at-append :
    (q : Str) (xs ys : List EventRecord)
    → record_at q (xs ++ ys) ≡ or_else (record_at q xs) (record_at q ys)
unfolding record_at or_else
record_at-append q [] ys = refl
record_at-append q (x ∷ xs) ys = ground (arith, record_at-append q xs ys)

record_at_fresh :
    (log : List EventRecord) (r : EventRecord)
    → NumberedFrom 0 log
    → r.position ≡ length log
    → length log < u64_mod
    → record_at (event_file (str "Events") r.position) log ≡ none
record_at_fresh log r h e f =
    elim (Option-cases (record_at (event_file (str "Events") r.position) log)) [
      | inl missing ↦ missing
      | inr (x, found) ↦
          let (name, m) = record_at-some (event_file (str "Events") r.position) log x found in
          let bounds = positions_of_bounds 0 x.position log h m in
          absurd (
            omega (
              arith,
              bounds.1,
              event_file-injective (str "Events") r.position x.position (omega arith)
                  (omega (arith, bounds.1)) name,
            ))
    ]

-- Two texts that a test tells apart are different.
differ_by : (f : Str → Bool) (q x : Str) → f q ≡ true → f x ≡ false → (q == x) ≡ false
differ_by f q x h k = ground (arith, (list_eq {A = ℕ}).beq_iff q x)

event_file-not-index :
    (n : ℕ) → is_some (strip_prefix (str "Indices/") (event_file (str "Events") n)) ≡ false
unfolding event_file strip_prefix
event_file-not-index n = refl

module _ (p : Platform) where
  type_path-not-child : (t : Str) → is_child (str "Events/") (type_path p (str "Indices") t) ≡ false
  unfolding is_child type_path strip_prefix
  type_path-not-child t = refl

  tag_path-not-child : (t : Tag) → is_child (str "Events/") (tag_path p (str "Indices") t) ≡ false
  unfolding is_child tag_path strip_prefix
  tag_path-not-child t = refl

  -- No file of an event is an index file, and the other way round.
  child-not-indexes :
      (q : Str) (r : EventRecord) → is_child (str "Events/") q ≡ true → indexes p q r ≡ false
  child-not-indexes q r h =
      let not_type =
        differ_by (is_child (str "Events/")) q (type_path p (str "Indices") r.event.event_type) h
          (type_path-not-child r.event.event_type) in
      let not_tags =
        any-false (λ t. q == tag_path p (str "Indices") t) r.event.tags
          (λ t.
            differ_by (is_child (str "Events/")) q (tag_path p (str "Indices") t) h
              (tag_path-not-child t)) in
      ground (arith, not_type, not_tags)

  index-not-event : (q : Str) (n : ℕ) → IsIndexFile q → (q == event_file (str "Events") n) ≡ false
  index-not-event q n h =
      differ_by (λ x. is_some (strip_prefix (str "Indices/") x)) q (event_file (str "Events") n) h
        (event_file-not-index n)

  module _ (log : List EventRecord) (r : EventRecord) (c : p.Bytes) (d d' : Disk p.Bytes)
      (rep : Represents p log d) (next : r.position ≡ length log)
      (room : suc (length log) < u64_mod) (written : p.event_json.to_vec r ≡ some c)
      (adds : Adds p
        (λ q. indexes p q r)
        r.position
        (write (event_file (str "Events") r.position) c d)
        d') where
    append_events_file :
        (q : Str)
        → is_child (str "Events/") q ≡ true
        → d'.file q ≡ encoded p (record_at q (log ++ r ∷ []))
    unfolding record_at encoded or_else
    append_events_file q h =
        let new : Str = event_file (str "Events") r.position in
        elim (Bool-cases (q == new)) [
          | inl here ↦
              let fresh = record_at_fresh log r rep.numbered next (omega arith) in
              ground (
                arith,
                adds.others q (child-not-indexes q r h),
                record_at-append q log (r ∷ []),
                here,
                fresh,
                (list_eq {A = ℕ}).beq_iff q new,
                written,
              )
          | inr there ↦ ground (
            arith,
            adds.others q (child-not-indexes q r h),
            record_at-append q log (r ∷ []),
            there,
            rep.events q h,
          )
        ]

    append_index :
        (q : Str) (k : ℕ)
        → IsIndexFile q
        → contains k (index_at p d' q) ≡ any (λ x. indexes p q x && x.position == k) (log ++ r ∷ [])
    unfolding index_at
    append_index q k h = ground (
      arith,
      adds.members q k,
      index-not-event q r.position h,
      rep.indices q k h,
      any-append (λ x. indexes p q x && x.position == k) log (r ∷ []),
    )

    pub Represents-append : Represents p (log ++ r ∷ []) d'
    Represents-append = record {
      numbered = NumberedFrom-append 0 log r rep.numbered (omega arith);
      fits = omega (arith, length-append log (r ∷ []));
      events = append_events_file;
      indices = append_index;
    }

  module _ (law : IsLawful p) where
    open law.reliable use {view}

    -- The file and the index entries of the next record.
    pub append_record_lem :
        (log : List EventRecord) (r : EventRecord) (s : p.backend.State)
        → Represents p log (view s)
        → IndexLocksFree p (view s)
        → r.position ≡ length log
        → suc (length log) < u64_mod
        → Runs
            (append_record p r s)
            (λ _ s'. Represents p (log ++ r ∷ []) (view s') × ((view s').locked ≡ (view s).locked))
    unfolding append_record
    append_record_lem log r s rep free next room =
        let (c, written, read) = law.events.round_trip r in
        let new : Str = event_file (str "Events") r.position in
        let (u1, s1, e1, v1) = law.reliable.write_file_law new c s in
        let (u2, s2, e2, adds) = add_event_to_indices_lem p law (str "Indices") r s1 (rw v1 free) in
        let adds' = rw v1 at adds in
        (
          tt,
          s2,
          ground (arith, written, e1, e2),
          (Represents-append log r c (view s) (view s2) rep next room written adds', adds'.locks),
        )

-- ===== src/Maintain/Files/Laws.antt =====
-- src/event_store/files.rs: an event file after it was written.
use marmosa.Common.{
  ℕ, zero, suc, ◌^◌, ◌≤◌, ◌<◌, ◌≡◌, refl, true, false, some, arith, Str, nat_eq, list_eq, beq_refl,
  is_empty,
}
use marmosa.Text.{event_file}
use marmosa.Domain.{EventRecord}
use marmosa.Exec.{ok}
use marmosa.Exec.Rules.{Runs}
use marmosa.Ports.{Platform, IsLawful}
use marmosa.Maintain.Files.{
  pos, as_i64, get_event_file_path, write_event_file, write_event, read_event,
}

get_event_file_path_lem :
    (events_path : Str) (n : ℕ)
    → is_empty events_path ≡ false
    → 0 < n
    → get_event_file_path events_path (pos n) ≡ ok (event_file events_path n)
unfolding get_event_file_path
get_event_file_path_lem events_path zero h lt = ground (arith, lt)
get_event_file_path_lem events_path (suc n) h lt = ground (arith, h)

as_i64-pos : (n : ℕ) → n < 2 ^ 63 → as_i64 n ≡ pos n
unfolding as_i64
as_i64-pos n h = ground (arith, h)

module _ (p : Platform) (law : IsLawful p) where
  open law.reliable use {view}
  open p.backend use {State}

  -- An event whose position is positive and fits in an `i64`, and whose JSON has at most 1024
  -- bytes, is written to a directory with a name, whether its file is there or not, and is read
  -- back by its position.
  pub write_event-read_event :
      (events_path : Str) (event : EventRecord) (d : p.Bytes) (s : State)
      → is_empty events_path ≡ false
      → 0 < event.position
      → event.position < 2 ^ 63
      → p.event_json.to_vec event ≡ some d
      → p.size d ≤ 1024
      → Runs
          (write_event p events_path event true s)
          (λ _ s'. Runs (read_event p events_path (pos event.position) s') (λ x _. x ≡ event))
  unfolding write_event write_event_file read_event
  write_event-read_event events_path event d s named lower upper written small =
      let path = event_file events_path event.position in
      let (c, at, back) = law.events.round_trip event in
      let (u1, s1, e1, v1) = law.reliable.create_dir_all_law events_path s in
      let (u2, s2, e2, v2) = law.reliable.write_file_law path d s1 in
      let stored : (view s2).file path ≡ some d = rw v2 (ground (arith, beq_refl path)) in
      let (x, s3, e3, (same, v3)) = law.reliable.read_file_hit path s2 d stored in
      let to_path = get_event_file_path_lem events_path event.position named lower in
      (
        tt,
        s2,
        ground
            (arith, named, lower, as_i64-pos event.position upper, to_path, e1, written, small, e2),
        (event, s3, ground (arith, to_path, e3, same, at, written, back), refl),
      )

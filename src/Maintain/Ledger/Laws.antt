-- ===== src/Maintain/Ledger/Laws.antt =====
-- src/event_store/ledger.rs: the ledger after an update.
use marmosa.Common.{
  ℕ, ◌+◌, ◌%◌, ◌≡◌, refl, ◌∙◌, false, some, arith, Str, ◌==◌, nat_eq, list_eq, beq_refl, Bool-cases,
  inl, inr,
}
use marmosa.Text.{u64_mod}
use marmosa.Exec.Rules.{Runs}
use marmosa.Ports.{Platform, Codec, IsLawful, IsLossless}
use marmosa.Maintain.Ledger.{
  LedgerData, ledger_path, is_not_found, parse_ledger, get_last_sequence_position,
  get_next_sequence_position, update_sequence_position,
}

module _ (p : Platform) (law : IsLawful p) (ledger_json : Codec p.Bytes LedgerData)
    (lossless : IsLossless ledger_json)
    (not_empty : (l : LedgerData) (d : p.Bytes)
      → ledger_json.to_vec l ≡ some d
      → (p.size d == 0) ≡ false) where
  open law.reliable use {view}
  open p.backend use {State}

  abbrev at_position : ℕ → LedgerData
  at_position n = record { last_sequence_position = n; event_count = n }

  get_last_lem :
      (context_path : Str) (n : ℕ) (d : p.Bytes) (s : State)
      → ledger_json.to_vec (at_position n) ≡ some d
      → ledger_json.from_slice d ≡ some (at_position n)
      → (view s).file (ledger_path context_path) ≡ some d
      → Runs
          (get_last_sequence_position p ledger_json context_path s)
          (λ m s'. (m ≡ n) × (view s' ≡ view s))
  unfolding get_last_sequence_position parse_ledger
  get_last_lem context_path n d s written back hit =
      let (c, s1, e1, (same, v1)) = law.reliable.read_file_hit (ledger_path context_path) s d hit in
      (n, s1, ground (arith, e1, same, back, not_empty (at_position n) d written), (refl, v1))

  get_next_lem :
      (context_path : Str) (n : ℕ) (d : p.Bytes) (s : State)
      → ledger_json.to_vec (at_position n) ≡ some d
      → ledger_json.from_slice d ≡ some (at_position n)
      → (view s).file (ledger_path context_path) ≡ some d
      → Runs
          (get_next_sequence_position p ledger_json context_path s)
          (λ m s'. (m ≡ (n + 1) % u64_mod) × (view s' ≡ view s))
  unfolding get_next_sequence_position is_not_found
  get_next_lem context_path n d s written back hit =
      let (m, s1, e1, (same, v1)) = get_last_lem context_path n d s written back hit in
      let (c, s2, e2, (same2, v2)) =
        law.reliable.read_file_hit (ledger_path context_path) s1 d (rw v1 hit) in
      elim (Bool-cases (n == 0)) [
        | inl none_yet ↦
            ((n + 1) % u64_mod, s2, ground (arith, e1, same, e2, none_yet), (refl, v2 ∙ v1))
        | inr some_yet ↦ ((n + 1) % u64_mod, s1, ground (arith, e1, same, some_yet), (refl, v1))
      ]

  -- A position that is written to the ledger is the last position that is read back, and the next
  -- one is the position behind it, also behind 0; `serde_json` is taken to read back what it
  -- writes, and to write no empty text.
  pub update-get_next :
      (context_path : Str) (n : ℕ) (s : State)
      → Runs (update_sequence_position p ledger_json context_path n s) (λ _ s'.
        Runs (get_last_sequence_position p ledger_json context_path s') (λ m _. m ≡ n)
        × Runs
            (get_next_sequence_position p ledger_json context_path s')
            (λ m _. m ≡ (n + 1) % u64_mod))
  unfolding update_sequence_position
  update-get_next context_path n s =
      let (d, written, back) = lossless.round_trip (at_position n) in
      let (u1, s1, e1, v1) = law.reliable.create_dir_all_law context_path s in
      let (u2, s2, e2, v2) = law.reliable.write_file_law (ledger_path context_path) d s1 in
      let stored : (view s2).file (ledger_path context_path) ≡ some d =
        rw v2 (ground (arith, beq_refl (ledger_path context_path))) in
      let (m, s3, e3, (same, v3)) = get_last_lem context_path n d s2 written back stored in
      let (k, s4, e4, (next, v4)) = get_next_lem context_path n d s2 written back stored in
      (tt, s2, ground (arith, e1, written, e2), ((m, s3, e3, same), (k, s4, e4, next)))

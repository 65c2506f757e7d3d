-- ===== src/InMemory/Map.antt =====
-- `BTreeMap<String, V>`: entries in the order of their keys, each key once.
use marmosa.Common.{
  ℕ, ◌≡◌, refl, Bool, true, false, not, Option, none, some, List, [], ◌∷◌, arith, Str, ◌==◌, nat_eq,
  list_beq, list_eq, ltb, if◌then◌else◌, contains, Distinct, All, Bool-cases, inl, inr,
}
use marmosa.Common.Every.{All-mono}
use marmosa.Ports.{is_some}

-- The order of strings: the bytes of UTF-8 are ordered as the code points are.
unfoldable pub str_lt : Str → Str → Bool
str_lt [] [] = false
str_lt [] (y ∷ ys) = true
str_lt (x ∷ xs) [] = false
str_lt (x ∷ xs) (y ∷ ys) = let rest = str_lt xs ys in if x == y then rest else ltb x y

str_lt_irrefl : (x : Str) → str_lt x x ≡ false
unfolding str_lt
str_lt_irrefl [] = refl
str_lt_irrefl (x ∷ xs) = ground (arith, str_lt_irrefl xs)

str_lt_trans : (x y z : Str) → str_lt x y ≡ true → str_lt y z ≡ true → str_lt x z ≡ true
unfolding str_lt
str_lt_trans [] [] z h k = cc
str_lt_trans [] (y ∷ ys) [] h k = cc
str_lt_trans [] (y ∷ ys) (z ∷ zs) h k = refl
str_lt_trans (x ∷ xs) [] z h k = cc
str_lt_trans (x ∷ xs) (y ∷ ys) [] h k = cc
str_lt_trans (x ∷ xs) (y ∷ ys) (z ∷ zs) h k = ground (arith, str_lt_trans xs ys zs)

str_lt_total : (x y : Str) → (x == y) ≡ false → str_lt x y ≡ false → str_lt y x ≡ true
unfolding str_lt list_beq
str_lt_total [] [] e h = cc
str_lt_total [] (y ∷ ys) e h = cc
str_lt_total (x ∷ xs) [] e h = refl
str_lt_total (x ∷ xs) (y ∷ ys) e h = ground (arith, str_lt_total xs ys)

module _ {V : Type 0} where
  abbrev pub KeysAbove : Str → List (Str × V) → Type 0
  KeysAbove k m = All (λ e. str_lt k e.0 ≡ true) m

  abbrev pub Ordered : List (Str × V) → Type 0
  Ordered [] = Unit
  Ordered ((k, v) ∷ m) = KeysAbove k m × Ordered m

  unfoldable pub lookup : Str → List (Str × V) → Option V
  lookup q [] = none
  lookup q ((k, v) ∷ m) = if q == k then some v else lookup q m

  unfoldable pub insert_entry : Str → V → List (Str × V) → List (Str × V)
  insert_entry q w [] = (q, w) ∷ []
  insert_entry q w ((k, v) ∷ m) =
      let rest = insert_entry q w m in
      if q == k then (q, w) ∷ m else if str_lt q k then (q, w) ∷ (k, v) ∷ m else (k, v) ∷ rest

  unfoldable pub retain_entries : (Str → Bool) → List (Str × V) → List (Str × V)
  retain_entries f [] = []
  retain_entries f ((k, v) ∷ m) =
      let rest = retain_entries f m in if f k then (k, v) ∷ rest else rest

  unfoldable pub entry_keys : List (Str × V) → List Str
  entry_keys [] = []
  entry_keys ((k, v) ∷ m) = k ∷ entry_keys m

  pub lookup-insert_entry :
      (j q : Str) (w : V) (m : List (Str × V))
      → lookup j (insert_entry q w m) ≡ (if j == q then some w else lookup j m)
  unfolding lookup insert_entry
  lookup-insert_entry j q w [] = refl
  lookup-insert_entry j q w ((k, v) ∷ m) = ground (
    arith,
    lookup-insert_entry j q w m,
    (list_eq {A = ℕ}).beq_iff j q,
    (list_eq {A = ℕ}).beq_iff q k,
    (list_eq {A = ℕ}).beq_iff j k,
  )

  pub lookup-retain_entries :
      (j : Str) (f : Str → Bool) (m : List (Str × V))
      → lookup j (retain_entries f m) ≡ (if f j then lookup j m else none)
  unfolding lookup retain_entries
  lookup-retain_entries j f [] = ground arith
  lookup-retain_entries j f ((k, v) ∷ m) =
      ground (arith, lookup-retain_entries j f m, (list_eq {A = ℕ}).beq_iff j k)

  pub contains-entry_keys :
      (j : Str) (m : List (Str × V)) → contains j (entry_keys m) ≡ is_some (lookup j m)
  unfolding entry_keys lookup
  contains-entry_keys j [] = refl
  contains-entry_keys j ((k, v) ∷ m) =
      ground (
        arith,
        contains-entry_keys j m,
        (list_eq {A = ℕ}).beq_iff j k,
        (list_eq {A = ℕ}).beq_iff k j,
      )

  insert_entry-KeysAbove :
      (k q : Str) (w : V) (m : List (Str × V))
      → str_lt k q ≡ true
      → KeysAbove k m
      → KeysAbove k (insert_entry q w m)
  unfolding insert_entry
  insert_entry-KeysAbove k q w [] h a = (h, tt)
  insert_entry-KeysAbove k q w ((j, v) ∷ m) h a = ground (arith, insert_entry-KeysAbove k q w m)

  pub insert_entry-Ordered :
      (q : Str) (w : V) (m : List (Str × V)) → Ordered m → Ordered (insert_entry q w m)
  unfolding insert_entry
  insert_entry-Ordered q w [] o = (tt, tt)
  insert_entry-Ordered q w ((k, v) ∷ m) (a, o) = elim (Bool-cases (q == k)) [
    | inl same ↦
        let e : q ≡ k = ((list_eq {A = ℕ}).beq_iff q k).0 same in
        let a' : KeysAbove q m = rw e a in rw (same, insert_entry) (a', o)
    | inr differ ↦ elim (Bool-cases (str_lt q k)) [
      | inl before ↦
          rw (differ, before, insert_entry)
            ((before, All-mono _ _ (λ e h. str_lt_trans q k e.0 before h) m a), (a, o))
      | inr after ↦
          rw (differ, after, insert_entry)
            (
              insert_entry-KeysAbove k q w m (str_lt_total q k differ after) a,
              insert_entry-Ordered q w m o,
            )
    ]
  ]

  retain_entries-KeysAbove :
      (k : Str) (f : Str → Bool) (m : List (Str × V))
      → KeysAbove k m
      → KeysAbove k (retain_entries f m)
  unfolding retain_entries
  retain_entries-KeysAbove k f [] a = tt
  retain_entries-KeysAbove k f ((j, v) ∷ m) a = ground (arith, retain_entries-KeysAbove k f m)

  retain_entries-Ordered :
      (f : Str → Bool) (m : List (Str × V)) → Ordered m → Ordered (retain_entries f m)
  unfolding retain_entries
  retain_entries-Ordered f [] o = tt
  retain_entries-Ordered f ((k, v) ∷ m) o =
      ground (arith, retain_entries-Ordered f m, retain_entries-KeysAbove k f m)

  pub absent_above :
      (k : Str) (m : List (Str × V)) → KeysAbove k m → contains k (entry_keys m) ≡ false
  unfolding entry_keys
  absent_above k [] a = refl
  absent_above k ((j, v) ∷ m) (h, a) =
      ground (arith, absent_above k m a, (list_eq {A = ℕ}).beq_iff j k, str_lt_irrefl k)

  entry_keys-Distinct : (m : List (Str × V)) → Ordered m → Distinct (entry_keys m)
  unfolding entry_keys
  entry_keys-Distinct [] o = tt
  entry_keys-Distinct ((k, v) ∷ m) (a, o) = (absent_above k m a, entry_keys-Distinct m o)

pub record BTreeMap (V : Type 0) : Type 0 where
  pub entries : List (Str × V)
  pub ordered : Ordered entries

module _ {V : Type 0} where
  unfoldable pub empty : BTreeMap V
  empty = record { entries = []; ordered = tt }

  unfoldable pub get : Str → BTreeMap V → Option V
  unfolding lookup
  get k m = lookup k m.entries

  unfoldable pub insert : Str → V → BTreeMap V → BTreeMap V
  unfolding insert_entry
  insert k v m = record {
    entries = insert_entry k v m.entries;
    ordered = insert_entry-Ordered k v m.entries m.ordered;
  }

  -- `remove` of each key that fails a test
  pub retain_keys : (Str → Bool) → BTreeMap V → BTreeMap V
  unfolding retain_entries
  retain_keys f m = record {
    entries = retain_entries f m.entries;
    ordered = retain_entries-Ordered f m.entries m.ordered;
  }

  pub remove : Str → BTreeMap V → BTreeMap V
  unfolding retain_keys
  remove k m = retain_keys (λ j. not (j == k)) m

  unfoldable pub keys : BTreeMap V → List Str
  unfolding entry_keys
  keys m = entry_keys m.entries

  pub get-empty : (k : Str) → get k empty ≡ none
  unfolding get empty
  get-empty k = refl

  pub get-insert :
      (j k : Str) (v : V) (m : BTreeMap V)
      → get j (insert k v m) ≡ (if j == k then some v else get j m)
  unfolding get insert
  get-insert j k v m = lookup-insert_entry j k v m.entries

  pub get-retain_keys :
      (j : Str) (f : Str → Bool) (m : BTreeMap V)
      → get j (retain_keys f m) ≡ (if f j then get j m else none)
  unfolding get retain_keys
  get-retain_keys j f m = lookup-retain_entries j f m.entries

  pub get-remove :
      (j k : Str) (m : BTreeMap V) → get j (remove k m) ≡ (if j == k then none else get j m)
  unfolding remove
  get-remove j k m = ground (arith, get-retain_keys j (λ x. not (x == k)) m)

  pub contains-keys : (j : Str) (m : BTreeMap V) → contains j (keys m) ≡ is_some (get j m)
  unfolding keys get
  contains-keys j m = contains-entry_keys j m.entries

  pub keys-Distinct : (m : BTreeMap V) → Distinct (keys m)
  unfolding keys
  keys-Distinct m = entry_keys-Distinct m.entries m.ordered

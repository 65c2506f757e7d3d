-- ===== src/Common/Every.antt =====
-- Predicates on every element of a list.
use mathlib.Core.List.{List, [], ◌∷◌, ◌++◌, reverse, reverse-append}
use Prim.Native.Nat.{ℕ, zero, suc}
use mathlib.Core.Bool.{Bool}
use marmosa.Common.Tests.{Bool-cases}
use marmosa.Common.Lists.{All, retain, take}
use mathlib.Core.Logic.{inl, inr}

module _ {A : Type 0} (P : A → Type 0) where
  pub All-retain : (f : A → Bool) (xs : List A) → All P xs → All P (retain f xs)
  All-retain f [] h = tt
  All-retain f (x ∷ xs) (h, hs) = elim (Bool-cases (f x)) [
    | inl kept ↦ rw (kept, retain) (h, All-retain f xs hs)
    | inr dropped ↦ rw (dropped, retain) (All-retain f xs hs)
  ]

  pub All-take : (n : ℕ) (xs : List A) → All P xs → All P (take n xs)
  All-take zero xs h = tt
  All-take (suc n) [] h = tt
  All-take (suc n) (x ∷ xs) (h, hs) = (h, All-take n xs hs)

  pub All-append : (xs ys : List A) → All P xs → All P ys → All P (xs ++ ys)
  All-append [] ys h k = k
  All-append (x ∷ xs) ys (h, hs) k = (h, All-append xs ys hs k)

  pub All-reverse : (xs : List A) → All P xs → All P (reverse xs)
  All-reverse [] h = tt
  All-reverse (x ∷ xs) (h, hs) =
      rw (reverse-append (x ∷ []) xs) (All-append (reverse xs) (x ∷ []) (All-reverse xs hs) (h, tt))

  pub All-mono : (Q : A → Type 0) → ((x : A) → P x → Q x) → (xs : List A) → All P xs → All Q xs
  All-mono Q f [] h = tt
  All-mono Q f (x ∷ xs) (h, hs) = (f x h, All-mono Q f xs hs)

  pub All-both : (Q : A → Type 0) (xs : List A) → All P xs → All Q xs → All (λ x. P x × Q x) xs
  All-both Q [] h k = tt
  All-both Q (x ∷ xs) (h, hs) (k, ks) = ((h, k), All-both Q xs hs ks)

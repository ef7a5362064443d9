-- ===== src/Examples/Sorting.antt =====
-- An insertion sort in place of `qsort`, for the runs of flattening.
use guacenc.Base.{
  ◌≡◌, refl, inl, inr, true, false, Option, none, some, List, [], ◌∷◌, arith, Bool-cases,
  Option-cases,
}
use mathlib.Core.List.{Permᴰ}
use mathlib.Core.List as List
use guacenc.Base.Tests.{◌>>=◌}
use guacenc.Base.Int.{ℤ, pos, ◌≤ℤ◌, leb_ℤ}
use guacenc.Display.Flatten.{Qsort}
use guacenc.Display.Flatten.Reached.{Permutes, Then, Then-some}
use guacenc.Display.Flatten.Order.{All, AllPairs, IsOrder, Sorts}
use guacenc.Display.Flatten.Frames.{All-Perm}

module _ {A State : Type 0} (comparator : A → A → State → Option (ℤ × State)) where
  unfoldable pub insert : A → List A → State → Option (List A × State)
  insert x [] s = some (x ∷ [], s)
  insert x (y ∷ ys) s = elim (comparator x y s) [
    | none ↦ none
    | some (c, s') ↦ elim (leb_ℤ c (pos 0)) [
      | true ↦ some (x ∷ y ∷ ys, s')
      | false ↦ do (zs, s'') ← insert x ys s'; some (y ∷ zs, s'')
    ]
  ]

  unfoldable pub insertion_sort : List A → State → Option (List A × State)
  unfolding insert
  insertion_sort [] s = some ([], s)
  insertion_sort (x ∷ xs) s = do (ys, s') ← insertion_sort xs s; insert x ys s'

abbrev pub library : Qsort
library = record { qsort = insertion_sort }

module _ {A State : Type 0} (comparator : A → A → State → Option (ℤ × State)) (value : A → A → ℤ)
    (order : IsOrder value) (s : State) where
  abbrev Pure : A → A → Type 0
  Pure a b = comparator a b s ≡ some (value a b, s)

  abbrev Before : A → A → Type 0
  Before a b = value a b ≤ℤ pos 0

  -- The result of an insertion.
  record Inserted (x : A) (ys : List A) : Type 0 where
    result : List A
    run : insert comparator x ys s ≡ some (result, s)
    perm : Permᴰ (x ∷ ys) result
    sorted : AllPairs Before result

  All-Before : (x y : A) (ys : List A) → Before x y → All (Before y) ys → All (Before x) ys
  All-Before x y [] h all = tt
  All-Before x y (z ∷ ys) h all = (order.transitive x y z h all.0, All-Before x y ys h all.1)

  insert-Inserted : (x : A) (ys : List A) → All (Pure x) ys → AllPairs Before ys → Inserted x ys
  unfolding insert
  insert-Inserted x [] pure sorted = record {
    result = x ∷ [];
    run = refl;
    perm = List.Permᴰ.refl (x ∷ []);
    sorted = (tt, tt);
  }
  insert-Inserted x (y ∷ ys) pure sorted = elim (Bool-cases (leb_ℤ (value x y) (pos 0))) [
    | inl e ↦
        let first : Before x y = ground (arith, e) in
        record {
          result = x ∷ y ∷ ys;
          run = rw (insert, pure.0, e) refl;
          perm = List.Permᴰ.refl (x ∷ y ∷ ys);
          sorted = ((first, All-Before x y ys first sorted.0), sorted);
        }
    | inr e ↦
        let later = insert-Inserted x ys pure.1 sorted.1 in
        let first : Before y x = elim (order.total x y) [
          | inl h ↦ absurd (ground (arith, e, h))
          | inr h ↦ h
        ] in
        record {
          result = y ∷ later.result;
          run = rw (insert, pure.0, e, later.run) refl;
          perm = Permᴰ.trans (Permᴰ.swap refl refl) (Permᴰ.cons refl later.perm);
          sorted = (All-Perm (Before y) later.perm (first, sorted.0), later.sorted);
        }
  ]

  -- The result of the sort.
  record IsSorted (xs : List A) : Type 0 where
    result : List A
    run : insertion_sort comparator xs s ≡ some (result, s)
    perm : Permᴰ xs result
    sorted : AllPairs Before result

  insertion_sort-IsSorted : (xs : List A) → AllPairs Pure xs → IsSorted xs
  unfolding insertion_sort
  insertion_sort-IsSorted [] pure = record {
    result = [];
    run = refl;
    perm = Permᴰ.nil;
    sorted = tt;
  }
  insertion_sort-IsSorted (x ∷ xs) pure =
      let rest = insertion_sort-IsSorted xs pure.1 in
      let all = insert-Inserted x rest.result (All-Perm (Pure x) rest.perm pure.0) rest.sorted in
      record {
        result = all.result;
        run = rw (insertion_sort, rest.run) all.run;
        perm = Permᴰ.trans (Permᴰ.cons refl rest.perm) all.perm;
        sorted = all.sorted;
      }

  pairs : (xs : List A) → All (λ a. All (Pure a) xs) xs → AllPairs Pure xs
  pairs [] h = tt
  pairs (x ∷ xs) h = (h.0.1, pairs xs (All-tails x xs xs h.1))
    where
      All-tails :
          (x : A) (xs ys : List A)
          → All (λ a. All (Pure a) (x ∷ xs)) ys
          → All (λ a. All (Pure a) xs) ys
      All-tails x xs [] h = tt
      All-tails x xs (y ∷ ys) h = (h.0.1, All-tails x xs ys h.1)

pub library-Sorts : Sorts library
library-Sorts = record {
  sorts = λ comparator value entries s order pure.
      let r =
        insertion_sort-IsSorted comparator value order s entries
          (pairs comparator value order s entries pure) in
      (r.result, r.run, r.perm, r.sorted);
}

module _ {A State : Type 0} (comparator : A → A → State → Option (ℤ × State)) (P : State → Type 0)
    (keeps : (a b : A) (t : State) (answer : ℤ × State)
      → P t
      → comparator a b t ≡ some answer
      → P answer.1) where
  abbrev Moves : List A → Option (List A × State) → Type 0
  Moves xs o = Then (λ (r : List A × State). Permᴰ xs r.0 × P r.1) o

  insert-Moves : (x : A) (ys : List A) (s : State) → P s → Moves (x ∷ ys) (insert comparator x ys s)
  unfolding insert
  insert-Moves x [] s p = (List.Permᴰ.refl (x ∷ []), p)
  insert-Moves x (y ∷ ys) s p = elim (Option-cases (comparator x y s)) [
    | inl e ↦ rw (insert, e) tt
    | inr ((c, s'), e) ↦
        let q = keeps x y s (c, s') p e in
        elim (Bool-cases (leb_ℤ c (pos 0))) [
          | inl h ↦ rw (insert, e, h) (List.Permᴰ.refl (x ∷ y ∷ ys), q)
          | inr h ↦ elim (Option-cases (insert comparator x ys s')) [
            | inl f ↦ rw (insert, e, h, f) tt
            | inr ((zs, s''), f) ↦
                let (perm, q') =
                  Then-some (λ (r : List A × State). Permᴰ (x ∷ ys) r.0 × P r.1) _ (zs, s'') f
                    (insert-Moves x ys s' q) in
                rw (insert, e, h, f) (Permᴰ.trans (Permᴰ.swap refl refl) (Permᴰ.cons refl perm), q')
          ]
        ]
  ]

  insertion_sort-Moves : (xs : List A) (s : State) → P s → Moves xs (insertion_sort comparator xs s)
  unfolding insertion_sort
  insertion_sort-Moves [] s p = (Permᴰ.nil, p)
  insertion_sort-Moves (x ∷ xs) s p = elim (Option-cases (insertion_sort comparator xs s)) [
    | inl e ↦ rw (insertion_sort, e) tt
    | inr ((ys, s'), e) ↦
        let (perm, q) =
          Then-some (λ (r : List A × State). Permᴰ xs r.0 × P r.1) _ (ys, s') e
            (insertion_sort-Moves xs s p) in
        elim (Option-cases (insert comparator x ys s')) [
          | inl f ↦ rw (insertion_sort, e, f) tt
          | inr (r, f) ↦
              let (perm', q') =
                Then-some (λ (r : List A × State). Permᴰ (x ∷ ys) r.0 × P r.1) _ r f
                  (insert-Moves x ys s' q) in
              rw (insertion_sort, e, f) (Permᴰ.trans (Permᴰ.cons refl perm) perm', q')
        ]
  ]

pub library-Permutes : Permutes library
library-Permutes = record {
  permutes = λ comparator P entries s r p keeps e.
      Then-some _ _ r e (insertion_sort-Moves comparator P keeps entries s p);
}

-- ===== src/Common/Lists.antt =====
-- Loops over tuples and lists: Python's `any`, `all`, comprehensions with a condition, and
-- `next(... , None)`.
use Prim.Native.Nat.{ℕ, zero, suc, ◌+◌, ◌≤◌}
use mathlib.Core.Path.{◌≡◌, refl, ap, ◌∙◌}
use mathlib.Core.Logic.{inl, inr}
use mathlib.Core.Bool.{Bool, true, false, not, ◌&&◌, ◌||◌}
use mathlib.Core.Option.{Option, none, some}
use mathlib.Core.List.{List, [], ◌∷◌, map}
use native.Mathlib.Omega.{arith}
use true_nas_controller.Common.Tests.{◌==◌, if◌then◌else◌, Bool-cases}

one_more : (a b : Bool) → (a ≡ true → b ≡ true) → (if a then 1 else 0) ≤ (if b then 1 else 0)
one_more true true h = ground arith
one_more true false h = let e = h refl in cc
one_more false true h = ground arith
one_more false false h = ground arith

module _ {ℓ} {A : Type ℓ} where
  abbrev pub length : List A → ℕ
  length [] = 0
  length (x ∷ xs) = suc (length xs)

  abbrev pub take : ℕ → List A → List A
  take zero _ = []
  take (suc n) [] = []
  take (suc n) (x ∷ xs) = x ∷ take n xs

  abbrev pub drop : ℕ → List A → List A
  drop zero xs = xs
  drop (suc n) [] = []
  drop (suc n) (x ∷ xs) = drop n xs

  abbrev pub any : List A → (A → Bool) → Bool
  any [] p = false
  any (x ∷ xs) p = p x || any xs p

  abbrev pub all : List A → (A → Bool) → Bool
  all [] p = true
  all (x ∷ xs) p = p x && all xs p

  -- `[x for x in xs if p(x)]`
  abbrev pub keep_if : (A → Bool) → List A → List A
  keep_if p [] = []
  keep_if p (x ∷ xs) = let rest = keep_if p xs in if p x then x ∷ rest else rest

  -- `next((x for x in xs if p(x)), None)`
  abbrev pub find_first : (A → Bool) → List A → Option A
  find_first p [] = none
  find_first p (x ∷ xs) = let rest = find_first p xs in if p x then some x else rest

  -- `{key(x): x for x in xs}.get(k)`: the last element with the key.
  abbrev pub find_last : (A → Bool) → List A → Option A
  find_last p [] = none
  find_last p (x ∷ xs) = elim (find_last p xs) [
    | some later ↦ some later
    | none ↦ if p x then some x else none
  ]

  abbrev pub is_empty : List A → Bool
  is_empty [] = true
  is_empty (_ ∷ _) = false

  -- The row-wise update `for record in matching: record.f = v`.
  abbrev pub update_if : (A → Bool) → (A → A) → List A → List A
  update_if p f [] = []
  update_if p f (x ∷ xs) = (if p x then f x else x) ∷ update_if p f xs

  -- A predicate at every element.
  abbrev pub All {κ} : (A → Type κ) → List A → Type κ
  All P [] = Unit
  All P (x ∷ xs) = P x × All P xs

  pub All-keep_if {κ} :
      (P : A → Type κ) (p : A → Bool) (xs : List A) → All P xs → All P (keep_if p xs)
  All-keep_if P p [] h = tt
  All-keep_if P p (x ∷ xs) h = elim (Bool-cases (p x)) [
    | inl e ↦ rw e (h.0, All-keep_if P p xs h.1)
    | inr e ↦ rw e (All-keep_if P p xs h.1)
  ]

  pub All-map {κ} : (P Q : A → Type κ) (xs : List A) → ((x : A) → P x → Q x) → All P xs → All Q xs
  All-map P Q [] k h = tt
  All-map P Q (x ∷ xs) k h = (k x h.0, All-map P Q xs k h.1)

  -- The elements that are kept have passed the test.
  pub All-keep_if_where {κ} :
      (P Q : A → Type κ) (p : A → Bool) (xs : List A)
      → ((x : A) → p x ≡ true → P x → Q x)
      → All P xs
      → All Q (keep_if p xs)
  All-keep_if_where P Q p [] k h = tt
  All-keep_if_where P Q p (x ∷ xs) k h = elim (Bool-cases (p x)) [
    | inl e ↦ rw e (k x e h.0, All-keep_if_where P Q p xs k h.1)
    | inr e ↦ rw e (All-keep_if_where P Q p xs k h.1)
  ]

  pub All-update_if {κ} :
      (P : A → Type κ) (p : A → Bool) (f : A → A) (xs : List A)
      → ((x : A) → P x → P (f x))
      → All P xs
      → All P (update_if p f xs)
  All-update_if P p f [] k h = tt
  All-update_if P p f (x ∷ xs) k h = elim (Bool-cases (p x)) [
    | inl e ↦ rw e (k x h.0, All-update_if P p f xs k h.1)
    | inr e ↦ rw e (h.0, All-update_if P p f xs k h.1)
  ]

  -- The rows that are written satisfy `Q` for a reason of their own.
  pub All-update_where {κ} :
      (P Q : A → Type κ) (p : A → Bool) (f : A → A) (xs : List A)
      → ((x : A) → p x ≡ true → P x → Q (f x))
      → ((x : A) → P x → Q x)
      → All P xs
      → All Q (update_if p f xs)
  All-update_where P Q p f [] k j h = tt
  All-update_where P Q p f (x ∷ xs) k j h = elim (Bool-cases (p x)) [
    | inl e ↦ rw e (k x e h.0, All-update_where P Q p f xs k j h.1)
    | inr e ↦ rw e (j x h.0, All-update_where P Q p f xs k j h.1)
  ]

  -- `sum(p(x) for x in xs)`
  abbrev pub count : (A → Bool) → List A → ℕ
  count p [] = 0
  count p (x ∷ xs) = (if p x then 1 else 0) + count p xs

  -- What `p` counts after the update, `q` has counted before it.
  pub count-update_if :
      (p q r : A → Bool) (f : A → A) (xs : List A)
      → ((x : A) → p (if r x then f x else x) ≡ true → q x ≡ true)
      → count p (update_if r f xs) ≤ count q xs
  count-update_if p q r f [] h = ground arith
  count-update_if p q r f (x ∷ xs) h =
      let first = one_more (p (if r x then f x else x)) (q x) (h x) in
      let rest = count-update_if p q r f xs h in omega arith

  pub length-update_if :
      (p : A → Bool) (f : A → A) (xs : List A) → length (update_if p f xs) ≡ length xs
  length-update_if p f [] = refl
  length-update_if p f (x ∷ xs) = ap suc (length-update_if p f xs)

  pub find_first-test : (p : A → Bool) (xs : List A) (x : A) → find_first p xs ≡ some x → p x ≡ true
  find_first-test p [] x h = cc
  find_first-test p (y ∷ xs) x h = ground (arith, find_first-test p xs x)

  -- Insertion sort: SQL's `ORDER BY` on the rows that a query has selected.
  abbrev pub insert_by : (A → A → Bool) → A → List A → List A
  insert_by le x [] = x ∷ []
  insert_by le x (y ∷ ys) = let rest = insert_by le x ys in if le x y then x ∷ y ∷ ys else y ∷ rest

  unfoldable pub order_by : (A → A → Bool) → List A → List A
  order_by le [] = []
  order_by le (x ∷ xs) = insert_by le x (order_by le xs)

  any-insert_by :
      (le : A → A → Bool) (p : A → Bool) (x : A) (ys : List A)
      → any (insert_by le x ys) p ≡ (p x || any ys p)
  any-insert_by le p x [] = refl
  any-insert_by le p x (y ∷ ys) = ground (arith, any-insert_by le p x ys)

  -- A query's order does not change which rows it returns.
  pub any-order_by :
      (le : A → A → Bool) (p : A → Bool) (xs : List A) → any (order_by le xs) p ≡ any xs p
  unfolding order_by
  any-order_by le p [] = refl
  any-order_by le p (x ∷ xs) =
      any-insert_by le p x (order_by le xs) ∙ ap (λ b. p x || b) (any-order_by le p xs)

pub All-take : {A : Type 0} (P : A → Type 0) (n : ℕ) (xs : List A) → All P xs → All P (take n xs)
All-take P zero xs h = tt
All-take P (suc n) [] h = tt
All-take P (suc n) (x ∷ xs) h = (h.0, All-take P n xs h.1)

All-insert_by :
    {A : Type 0} (P : A → Type 0) (le : A → A → Bool) (x : A) (ys : List A)
    → P x
    → All P ys
    → All P (insert_by le x ys)
All-insert_by P le x [] p h = (p, tt)
All-insert_by P le x (y ∷ ys) p h = elim (Bool-cases (le x y)) [
  | inl e ↦ rw e (p, h)
  | inr e ↦ rw e (h.0, All-insert_by P le x ys p h.1)
]

pub All-order_by :
    {A : Type 0} (P : A → Type 0) (le : A → A → Bool) (xs : List A)
    → All P xs
    → All P (order_by le xs)
unfolding order_by
All-order_by P le [] h = tt
All-order_by P le (x ∷ xs) h = All-insert_by P le x (order_by le xs) h.0 (All-order_by P le xs h.1)

insert_by-map :
    {A : Type 0} (le : A → A → Bool) (f : A → A) (x : A) (ys : List A)
    → ((a b : A) → le (f a) (f b) ≡ le a b)
    → insert_by le (f x) (map f ys) ≡ map f (insert_by le x ys)
insert_by-map le f x [] k = refl
insert_by-map le f x (y ∷ ys) k =
    let e = k x y in
    let rest = insert_by-map le f x ys k in
    rw e
      (elim (Bool-cases (le x y)) [ inl h ↦ rw h refl | inr h ↦ rw h (ap (λ zs. f y ∷ zs) rest) ])

-- A change of the rows that their order does not see.
pub order_by-map :
    {A : Type 0} (le : A → A → Bool) (f : A → A) (xs : List A)
    → ((a b : A) → le (f a) (f b) ≡ le a b)
    → order_by le (map f xs) ≡ map f (order_by le xs)
unfolding order_by
order_by-map le f [] k = refl
order_by-map le f (x ∷ xs) k =
    ap (insert_by le (f x)) (order_by-map le f xs k) ∙ insert_by-map le f x (order_by le xs) k

-- A row that is rewritten in place is still the first to be found.
pub find-update_if :
    {A : Type 0} (p q : A → Bool) (f : A → A) (xs : List A) (x : A)
    → ((y : A) → p (f y) ≡ p y)
    → find_first p xs ≡ some x
    → q x ≡ true
    → find_first p (update_if q f xs) ≡ some (f x)
find-update_if p q f [] x keeps h e = cc
find-update_if p q f (y ∷ ys) x keeps h e = elim (Bool-cases (p y)) [
  | inl a ↦ ground (arith, keeps y)
  | inr a ↦ ground (arith, keeps y, find-update_if p q f ys x keeps)
]

-- `x in xs` on identifiers
abbrev pub elem : ℕ → List ℕ → Bool
elem a xs = any xs (λ x. x == a)

-- `len(set(xs)) == len(xs)`
abbrev pub all_distinct : List ℕ → Bool
all_distinct [] = true
all_distinct (x ∷ xs) = not (elem x xs) && all_distinct xs

-- `set(xs) == set(ys)`
abbrev pub same_set : List ℕ → List ℕ → Bool
same_set xs ys = all xs (λ x. elem x ys) && all ys (λ y. elem y xs)

-- A dict with identifiers as keys, in the order of insertion: `d.get(key)`, and `d[key] = value`.
module _ {V : Type 0} where
  abbrev pub lookup : ℕ → List (ℕ × V) → Option V
  lookup key [] = none
  lookup key ((k, v) ∷ items) = let rest = lookup key items in if k == key then some v else rest

  abbrev pub put : ℕ → V → List (ℕ × V) → List (ℕ × V)
  put key value [] = (key, value) ∷ []
  put key value ((k, v) ∷ items) =
      let rest = put key value items in if k == key then (k, value) ∷ items else (k, v) ∷ rest

-- `tuple(dict.fromkeys(xs))`: each identifier once, where it stands first.
abbrev pub first_occurrences : List ℕ → List ℕ
first_occurrences [] = []
first_occurrences (x ∷ xs) = x ∷ keep_if (λ y. not (y == x)) (first_occurrences xs)

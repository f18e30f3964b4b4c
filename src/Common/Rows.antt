-- ===== src/Common/Rows.antt =====
-- What the statements of `Table` do to invariants, to counts and to a row found by its key.
use Prim.Native.Nat.{ℕ, zero, suc, ◌+◌, ◌≤◌}
use mathlib.Core.Path.{◌≡◌, refl}
use mathlib.Core.Logic.{inl, inr}
use mathlib.Core.Bool.{Bool, true, false}
use mathlib.Core.Option.{Option, none, some}
use mathlib.Core.Option
use mathlib.Core.List.{List, [], ◌∷◌, ◌++◌}
use native.Mathlib.Omega.{arith}
use funi.Common.Tests.{if◌then◌else◌, Bool-cases}
use funi.Common.Lists.{All, All-imp, get_elem?}
use funi.Common.Table.{
  select_where, any_where, count_where, first_where, update_where, delete_where,
}

module _ {ℓ} {A : Type ℓ} where
  -- The row as an UPDATE leaves it.
  abbrev pub set_if : (A → Bool) → (A → A) → A → A
  set_if p f x = if p x then f x else x

  -- An UPDATE keeps what its assignment keeps on the rows that it touches.
  pub All-update {κ} :
      (P : A → Type κ) (p : A → Bool) (f : A → A) (xs : List A)
      → ((x : A) → p x ≡ true → P x → P (f x))
      → All P xs
      → All P (update_where p f xs)
  All-update P p f [] keep h = tt
  All-update P p f (x ∷ xs) keep h = elim (Bool-cases (p x)) [
    | inl e ↦ (rw e (keep x e h.0), All-update P p f xs keep h.1)
    | inr e ↦ (rw e h.0, All-update P p f xs keep h.1)
  ]

  pub All-delete {κ} :
      (P : A → Type κ) (p : A → Bool) (xs : List A) → All P xs → All P (delete_where p xs)
  All-delete P p [] h = tt
  All-delete P p (x ∷ xs) h = elim (Bool-cases (p x)) [
    | inl e ↦ rw e (All-delete P p xs h.1)
    | inr e ↦ rw e (h.0, All-delete P p xs h.1)
  ]

  -- The count of rows with `q` falls to 0 when the UPDATE reaches all of them and ends `q`.
  pub count-update_zero :
      (q p : A → Bool) (f : A → A) (xs : List A)
      → ((x : A) → q x ≡ true → p x ≡ true)
      → ((x : A) → p x ≡ true → q (f x) ≡ false)
      → count_where q (update_where p f xs) ≡ 0
  count-update_zero q p f [] reach ends = refl
  count-update_zero q p f (x ∷ xs) reach ends =
      ground (arith, reach x, ends x, count-update_zero q p f xs reach ends)

  pub count-update_le :
      (q p : A → Bool) (f : A → A) (xs : List A)
      → ((x : A) → p x ≡ true → q (f x) ≡ true → q x ≡ true)
      → count_where q (update_where p f xs) ≤ count_where q xs
  count-update_le q p f [] back = omega arith
  count-update_le q p f (x ∷ xs) back = ground (arith, back x, count-update_le q p f xs back)

  pub count-append :
      (q : A → Bool) (xs ys : List A)
      → count_where q (xs ++ ys) ≡ count_where q xs + count_where q ys
  count-append q [] ys = omega arith
  count-append q (x ∷ xs) ys = ground (arith, count-append q xs ys)

  pub count-imp_le :
      (q r : A → Bool) (xs : List A)
      → ((x : A) → q x ≡ true → r x ≡ true)
      → count_where q xs ≤ count_where r xs
  count-imp_le q r [] imp = omega arith
  count-imp_le q r (x ∷ xs) imp = ground (arith, imp x, count-imp_le q r xs imp)

  pub count_zero : (q : A → Bool) (xs : List A) → All (λ x. q x ≡ false) xs → count_where q xs ≡ 0
  count_zero q [] h = refl
  count_zero q (x ∷ xs) h = ground (arith, count_zero q xs h.1)

  pub All-of_count_zero :
      (q : A → Bool) (xs : List A) → count_where q xs ≡ 0 → All (λ x. q x ≡ false) xs
  All-of_count_zero q [] h = tt
  All-of_count_zero q (x ∷ xs) h = elim (Bool-cases (q x)) [
    | inl e ↦ absurd (ground arith)
    | inr e ↦ (e, All-of_count_zero q xs (ground arith))
  ]

  -- A row that is found satisfies the clause, and what every row satisfies.
  pub first_where-true :
      (q : A → Bool) (xs : List A) {x : A} → first_where q xs ≡ some x → q x ≡ true
  first_where-true q [] h = cc
  first_where-true q (x ∷ xs) h = elim (Bool-cases (q x)) [
    | inl e ↦ ground arith
    | inr e ↦ first_where-true q xs (ground arith)
  ]

  pub first_where-All {κ} :
      (P : A → Type κ) (q : A → Bool) (xs : List A) {x : A}
      → All P xs
      → first_where q xs ≡ some x
      → P x
  first_where-All P q [] all h = cc
  first_where-All P q (y ∷ xs) {x = x} all h = elim (Bool-cases (q y)) [
    | inl e ↦ let same : y ≡ x = ground arith in rw same at (all.0)
    | inr e ↦ first_where-All P q xs all.1 (ground arith)
  ]

  pub first_where-none :
      (q : A → Bool) (xs : List A) → first_where q xs ≡ none → All (λ x. q x ≡ false) xs
  first_where-none q [] h = tt
  first_where-none q (x ∷ xs) h = elim (Bool-cases (q x)) [
    | inl e ↦ absurd (ground arith)
    | inr e ↦ (e, first_where-none q xs (ground arith))
  ]

  pub first_where-none_of_All :
      (q : A → Bool) (xs : List A) → All (λ x. q x ≡ false) xs → first_where q xs ≡ none
  first_where-none_of_All q [] h = refl
  first_where-none_of_All q (x ∷ xs) h = ground (arith, first_where-none_of_All q xs h.1)

  -- An UPDATE that leaves the key alone leaves the row found by that key where it was.
  pub first-update :
      (q p : A → Bool) (f : A → A) (xs : List A)
      → ((x : A) → q (f x) ≡ q x)
      → first_where q (update_where p f xs) ≡ Option.map (set_if p f) (first_where q xs)
  first-update q p f [] key = refl
  first-update q p f (x ∷ xs) key = elim (Bool-cases (p x)) [
    | inl e ↦ ground (arith, key x, first-update q p f xs key)
    | inr e ↦ ground (arith, first-update q p f xs key)
  ]

  pub first-append_new :
      (q : A → Bool) (xs : List A) (y : A)
      → first_where q xs ≡ none
      → q y ≡ true
      → first_where q (xs ++ y ∷ []) ≡ some y
  first-append_new q [] y h e = ground arith
  first-append_new q (x ∷ xs) y h e = ground (arith, first-append_new q xs y)

  pub first-append_old :
      (q : A → Bool) (xs ys : List A) {x : A}
      → first_where q xs ≡ some x
      → first_where q (xs ++ ys) ≡ some x
  first-append_old q [] ys h = cc
  first-append_old q (y ∷ xs) ys {x = x} h = ground (arith, first-append_old q xs ys {x = x})

  -- An UPDATE that reports no change changes nothing.
  pub update_none :
      (p : A → Bool) (f : A → A) (xs : List A) → count_where p xs ≡ 0 → update_where p f xs ≡ xs
  update_none p f [] h = refl
  update_none p f (x ∷ xs) h = ground (arith, update_none p f xs)

  pub first_where-pos :
      (q : A → Bool) (xs : List A) {x : A} → first_where q xs ≡ some x → 1 ≤ count_where q xs
  first_where-pos q [] h = cc
  first_where-pos q (y ∷ xs) {x = x} h = ground (arith, first_where-pos q xs {x = x})

  pub first_where-none_of_zero :
      (q : A → Bool) (xs : List A) → count_where q xs ≡ 0 → first_where q xs ≡ none
  first_where-none_of_zero q xs h = first_where-none_of_All q xs (All-of_count_zero q xs h)

  pub count_of_none : (q : A → Bool) (xs : List A) → first_where q xs ≡ none → count_where q xs ≡ 0
  count_of_none q xs h = count_zero q xs (first_where-none q xs h)

  -- No row has `q` where no row has the weaker `p`.
  pub count_of_any_false :
      (p q : A → Bool) (xs : List A)
      → any_where p xs ≡ false
      → ((x : A) → q x ≡ true → p x ≡ true)
      → count_where q xs ≡ 0
  count_of_any_false p q [] h imp = refl
  count_of_any_false p q (x ∷ xs) h imp = ground (arith, imp x, count_of_any_false p q xs)

  -- Rows keep their place: an UPDATE rewrites the row at each place, an INSERT adds one behind.
  pub get_elem?-update :
      (p : A → Bool) (f : A → A) (xs : List A) (k : ℕ)
      → get_elem? (update_where p f xs) k ≡ Option.map (set_if p f) (get_elem? xs k)
  get_elem?-update p f [] k = refl
  get_elem?-update p f (x ∷ xs) zero = refl
  get_elem?-update p f (x ∷ xs) (suc k) = get_elem?-update p f xs k

  pub get_elem?-append :
      (xs ys : List A) (k : ℕ) {x : A} → get_elem? xs k ≡ some x → get_elem? (xs ++ ys) k ≡ some x
  get_elem?-append [] ys k h = cc
  get_elem?-append (y ∷ xs) ys zero h = h
  get_elem?-append (y ∷ xs) ys (suc k) h = get_elem?-append xs ys k h

  -- A row found by one clause is the row of any key that it has, if that key is unique.
  pub count_of_first :
      (p q : A → Bool) (xs : List A) {x : A}
      → first_where p xs ≡ some x
      → q x ≡ true
      → 1 ≤ count_where q xs
  count_of_first p q [] h e = cc
  count_of_first p q (y ∷ xs) {x = x} h e = ground (arith, count_of_first p q xs {x = x})

  pub first_unique :
      (p q : A → Bool) (xs : List A) {x : A}
      → count_where q xs ≤ 1
      → first_where p xs ≡ some x
      → q x ≡ true
      → first_where q xs ≡ some x
  first_unique p q [] u h e = cc
  first_unique p q (y ∷ xs) {x = x} u h e =
      ground (arith, first_unique p q xs {x = x}, count_of_first p q xs {x = x})

  pub select-append_new :
      (q : A → Bool) (xs : List A) (y : A)
      → count_where q xs ≡ 0
      → q y ≡ true
      → select_where q (xs ++ y ∷ []) ≡ y ∷ []
  select-append_new q [] y h e = ground arith
  select-append_new q (x ∷ xs) y h e = ground (arith, select-append_new q xs y)

  -- A clause on columns that an UPDATE leaves alone finds a row after it where it did before.
  pub any-update :
      (q p : A → Bool) (f : A → A) (xs : List A)
      → ((x : A) → q (f x) ≡ q x)
      → any_where q (update_where p f xs) ≡ any_where q xs
  any-update q p f [] key = refl
  any-update q p f (x ∷ xs) key = ground (arith, key x, any-update q p f xs key)

  -- An UPDATE takes one property to another: by its assignment, or by the row not being reached.
  pub All-update_to {κ μ} :
      (P : A → Type κ) (Q : A → Type μ) (p : A → Bool) (f : A → A) (xs : List A)
      → ((x : A) → p x ≡ true → P x → Q (f x))
      → ((x : A) → p x ≡ false → P x → Q x)
      → All P xs
      → All Q (update_where p f xs)
  All-update_to P Q p f [] reached missed h = tt
  All-update_to P Q p f (x ∷ xs) reached missed h = elim (Bool-cases (p x)) [
    | inl e ↦ (rw e (reached x e h.0), All-update_to P Q p f xs reached missed h.1)
    | inr e ↦ (rw e (missed x e h.0), All-update_to P Q p f xs reached missed h.1)
  ]

  -- Where a key is held at most once and a row with more than the key exists, the two agree.
  pub unique_covers :
      (p q : A → Bool) (xs : List A)
      → ((x : A) → p x ≡ true → q x ≡ true)
      → count_where q xs ≤ 1
      → 1 ≤ count_where p xs
      → All (λ x. q x ≡ true → p x ≡ true) xs
  unique_covers p q [] imp u h = tt
  unique_covers p q (x ∷ xs) imp u h = elim (Bool-cases (p x)) [
    | inl e ↦ (
      λ _. e,
      All-imp (λ y. q y ≡ false) (λ y. q y ≡ true → p y ≡ true) xs (λ y n m. cc)
          (All-of_count_zero q xs (ground (arith, imp x))),
    )
    | inr e ↦ (
      λ m. absurd (ground (arith, count-imp_le p q xs imp)),
      unique_covers p q xs imp (ground arith) (ground arith),
    )
  ]

  -- Where a key is held at most once, a row with the key and not `p` leaves no row with `p`.
  pub count_unique_false :
      (p q : A → Bool) (xs : List A) {x : A}
      → ((y : A) → p y ≡ true → q y ≡ true)
      → count_where q xs ≤ 1
      → first_where q xs ≡ some x
      → p x ≡ false
      → count_where p xs ≡ 0
  count_unique_false p q [] imp u h e = cc
  count_unique_false p q (y ∷ xs) {x = x} imp u h e = elim (Bool-cases (q y)) [
    | inl m ↦ ground (arith, imp y, count-imp_le p q xs imp)
    | inr m ↦ ground (arith, imp y, count_unique_false p q xs {x = x} imp)
  ]

  -- An UPDATE that leaves a key alone leaves its count.
  pub count-update_key :
      (q p : A → Bool) (f : A → A) (xs : List A)
      → ((x : A) → q (f x) ≡ q x)
      → count_where q (update_where p f xs) ≡ count_where q xs
  count-update_key q p f [] key = refl
  count-update_key q p f (x ∷ xs) key = ground (arith, key x, count-update_key q p f xs key)

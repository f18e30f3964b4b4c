-- ===== src/Common/Places.antt =====
-- How the rows of a table move on in their places: a relation between the row at each place
-- before and after, with the rules for the statements of `Table`.
use mathlib.Core.Path.{◌≡◌, refl, sym, subst, ◌∙◌, ap}
use mathlib.Core.Logic.{inl, inr}
use mathlib.Core.Bool.{Bool, true}
use mathlib.Core.Option.{Option, none, some, some-injective}
use mathlib.Core.Option
use mathlib.Core.List.{List, [], ◌∷◌, ◌++◌}
use Prim.Native.Nat.{ℕ, suc}
use funi.Common.Tests.{Bool-cases}
use funi.Common.Lists.{get_elem?}
use funi.Common.Table.{update_where, first_where}
use funi.Common.Rows.{set_if, get_elem?-update, get_elem?-append}

module _ {ℓ κ} {A : Type ℓ} (R : A → A → Type κ) where
  -- Every row stays at its place, as it was or advanced by `R`.
  pub record Tracks (xs ys : List A) : Type (ℓ ⊔ κ) where
    pub place :
        (k : ℕ) (x : A) → get_elem? xs k ≡ some x → (y : A) × (get_elem? ys k ≡ some y) × R x y

  module _ (R-refl : (x : A) → R x x) where
    pub Tracks-refl : (xs : List A) → Tracks xs xs
    Tracks-refl xs = record { place = λ k x h. (x, h, R-refl x) }

    pub Tracks-append : (xs ys : List A) → Tracks xs (xs ++ ys)
    Tracks-append xs ys = record { place = λ k x h. (x, get_elem?-append xs ys k h, R-refl x) }

    -- An UPDATE whose assignment advances the rows that it touches.
    pub Tracks-update :
        (p : A → Bool) (f : A → A) (xs : List A)
        → ((x : A) → p x ≡ true → R x (f x))
        → Tracks xs (update_where p f xs)
    Tracks-update p f xs step = record {
      place = λ k x h.
          (set_if p f x, get_elem?-update p f xs k ∙ ap (Option.map (set_if p f)) h, advanced x);
    }
      where
        advanced : (x : A) → R x (set_if p f x)
        advanced x = elim (Bool-cases (p x)) [ inl e ↦ rw e (step x e) | inr e ↦ rw e (R-refl x) ]

  pub Tracks-trans :
      ((x y z : A) → R x y → R y z → R x z)
      → (xs ys zs : List A) → Tracks xs ys
      → Tracks ys zs
      → Tracks xs zs
  Tracks-trans R-trans xs ys zs f g = record {
    place = λ k x h.
        let (y, e, r) = f.place k x h in
        let (z, e', r') = g.place k y e in (z, e', R-trans x y z r r');
  }

  -- By a key that `R` leaves alone, the row that was found first is found first again, advanced.
  module _ (q : A → Bool) (key : (x y : A) → R x y → q y ≡ q x) where
    Tracks-tail : (x y : A) (xs ys : List A) → Tracks (x ∷ xs) (y ∷ ys) → Tracks xs ys
    Tracks-tail x y xs ys t = record { place = λ k z h. t.place (suc k) z h }

    Tracks-head : (x y : A) (xs ys : List A) → Tracks (x ∷ xs) (y ∷ ys) → R x y
    Tracks-head x y xs ys t =
        let (z, e, r) = t.place 0 x refl in subst (λ o. R x o) (sym (some-injective _ _ e)) r

    pub Tracks-first :
        (xs ys : List A) (x : A)
        → Tracks xs ys
        → first_where q xs ≡ some x
        → (y : A) × (first_where q ys ≡ some y) × R x y
    Tracks-first [] ys x t h = cc
    Tracks-first (z ∷ xs) [] x t h = let (y, e, r) = t.place 0 z refl in cc
    Tracks-first (z ∷ xs) (y ∷ ys) x t h =
        let r = Tracks-head z y xs ys t in
        elim (Bool-cases (q z)) [
          | inl e ↦
              (y, rw (key z y r ∙ e) refl, subst (λ o. R o y) (some-injective _ _ (rw e at h)) r)
          | inr e ↦ rw (key z y r ∙ e) (Tracks-first xs ys x (Tracks-tail z y xs ys t) (rw e at h))
        ]

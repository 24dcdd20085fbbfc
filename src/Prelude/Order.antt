-- ===== src/Prelude/Order.antt =====
-- `sort.Slice` and `sort.Strings`: insertion by a test.
use mathlib.Core.Bool.{Bool, true, false}
use mathlib.Core.List.{List, [], ◌∷◌, Perm}
use mathlib.Core.List.Perm
use mathlib.Core.Path.{◌≡◌}
use mathlib.Core.Logic.{inl, inr}
use e2b_local.Prelude.Tests.{if◌then◌else◌, Bool-cases}
use e2b_local.Prelude.Lists.{All, All-map}

module _ {ℓ} {A : Type ℓ} (less : A → A → Bool) where
  unfoldable pub insert_sorted : A → List A → List A
  insert_sorted a [] = a ∷ []
  insert_sorted a (x ∷ xs) =
      let rest = insert_sorted a xs in if less x a then x ∷ rest else a ∷ x ∷ xs

  unfoldable pub sort_slice : List A → List A
  unfolding insert_sorted
  sort_slice [] = []
  sort_slice (x ∷ xs) = insert_sorted x (sort_slice xs)

  pub insert_sorted-perm : (a : A) (xs : List A) → Perm (insert_sorted a xs) (a ∷ xs)
  unfolding insert_sorted
  insert_sorted-perm a [] = Perm.refl (a ∷ [])
  insert_sorted-perm a (x ∷ xs) = elim (Bool-cases (less x a)) [
    | inl e ↦ rw e (Perm.trans (Perm.cons x (insert_sorted-perm a xs)) (Perm.swap a x xs))
    | inr e ↦ rw e (Perm.refl (a ∷ x ∷ xs))
  ]

  pub sort_slice-perm : (xs : List A) → Perm (sort_slice xs) xs
  unfolding sort_slice
  sort_slice-perm [] = Perm.refl []
  sort_slice-perm (x ∷ xs) =
      Perm.trans (insert_sorted-perm x (sort_slice xs)) (Perm.cons x (sort_slice-perm xs))

  -- No item stands before one that is less.
  abbrev pub NotBefore : A → A → Type 0
  NotBefore x y = less y x ≡ false

  abbrev pub IsSorted : List A → Type ℓ
  IsSorted [] = Unit
  IsSorted (x ∷ xs) = All (NotBefore x) xs × IsSorted xs

  All-insert_sorted {κ} :
      (P : A → Type κ) (a : A) (xs : List A) → P a → All P xs → All P (insert_sorted a xs)
  unfolding insert_sorted
  All-insert_sorted P a [] pa h = (pa, tt)
  All-insert_sorted P a (x ∷ xs) pa (px, h) = elim (Bool-cases (less x a)) [
    | inl e ↦ rw e (px, All-insert_sorted P a xs pa h)
    | inr e ↦ rw e (pa, (px, h))
  ]

-- An order by a test: asymmetric, and its negation is transitive.
pub record IsOrder {ℓ} {A : Type ℓ} (less : A → A → Bool) : Type ℓ where
  pub asym : (x y : A) → less x y ≡ true → less y x ≡ false
  pub trans : (x y z : A) → less y x ≡ false → less z y ≡ false → less z x ≡ false

module _ {ℓ} {A : Type ℓ} {less : A → A → Bool} (o : IsOrder less) where
  insert_sorted-IsSorted :
      (a : A) (xs : List A) → IsSorted less xs → IsSorted less (insert_sorted less a xs)
  unfolding insert_sorted
  insert_sorted-IsSorted a [] h = (tt, tt)
  insert_sorted-IsSorted a (x ∷ xs) (hx, h) = elim (Bool-cases (less x a)) [
    | inl e ↦ rw e (
      All-insert_sorted less (NotBefore less x) a xs (o.asym x a e) hx,
      insert_sorted-IsSorted a xs h,
    )
    | inr e ↦ rw e (
      (e, All-map (NotBefore less x) (NotBefore less a) (λ y g. o.trans a x y e g) xs hx),
      (hx, h),
    )
  ]

  pub sort_slice-IsSorted : (xs : List A) → IsSorted less (sort_slice less xs)
  unfolding sort_slice
  sort_slice-IsSorted [] = tt
  sort_slice-IsSorted (x ∷ xs) =
      insert_sorted-IsSorted x (sort_slice less xs) (sort_slice-IsSorted xs)

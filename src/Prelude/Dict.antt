-- ===== src/Prelude/Dict.antt =====
-- Go's maps, as association lists: a write replaces the entry in place or appends one.
use Prim.Native.Nat.{◌+◌, ◌≤◌}
use mathlib.Core.List.{List, [], ◌∷◌}
use mathlib.Core.Option.{Option, none, some}
use mathlib.Core.Path.{◌≡◌, refl, subst}
use mathlib.Core.Logic.{inl, inr}
use native.Mathlib.Omega.{arith}
use e2b_local.Prelude.Tests.{Eq, ◌==◌, if◌then◌else◌, Bool-cases, ==→eq}
use e2b_local.Prelude.Lists.{length}

abbrev pub Dict {ℓ κ} : Type ℓ → Type κ → Type (ℓ ⊔ κ)
Dict K V = List (K × V)

module _ {ℓ κ} {K : Type ℓ} {V : Type κ} ⦃e : Eq K⦄ where
  unfoldable pub lookup : K → Dict K V → Option V
  lookup k [] = none
  lookup k ((j, v) ∷ d) = if j == k then some v else lookup k d

  unfoldable pub insert : K → V → Dict K V → Dict K V
  insert k v [] = (k, v) ∷ []
  insert k v ((j, w) ∷ d) = let rest = insert k v d in if j == k then (k, v) ∷ d else (j, w) ∷ rest

  unfoldable pub delete : K → Dict K V → Dict K V
  delete k [] = []
  delete k ((j, w) ∷ d) = let rest = delete k d in if j == k then rest else (j, w) ∷ rest

  pub lookup-insert :
      (k j : K) (v : V) (d : Dict K V)
      → lookup j (insert k v d) ≡ (if k == j then some v else lookup j d)
  unfolding lookup insert
  lookup-insert k j v [] = refl
  lookup-insert k j v ((i, w) ∷ d) =
      ground (arith, e.decides k j, e.decides i k, e.decides i j, lookup-insert k j v d)

  pub lookup-delete :
      (k j : K) (d : Dict K V) → lookup j (delete k d) ≡ (if k == j then none else lookup j d)
  unfolding lookup delete
  lookup-delete k j [] = ground arith
  lookup-delete k j ((i, w) ∷ d) =
      ground (arith, e.decides k j, e.decides i k, e.decides i j, lookup-delete k j d)

  pub length-insert_new :
      (k : K) (v : V) (d : Dict K V) → lookup k d ≡ none → length (insert k v d) ≡ length d + 1
  unfolding lookup insert
  length-insert_new k v [] h = omega arith
  length-insert_new k v ((i, w) ∷ d) h = ground (arith, length-insert_new k v d)

  pub length-delete-le : (k : K) (d : Dict K V) → length (delete k d) ≤ length d
  unfolding delete
  length-delete-le k [] = omega arith
  length-delete-le k ((i, w) ∷ d) = ground (arith, length-delete-le k d)

  -- No key stands twice.
  abbrev pub IsMap : Dict K V → Type κ
  IsMap [] = Unit
  IsMap ((k, v) ∷ d) = (lookup k d ≡ none) × IsMap d

  pub IsMap-insert : (k : K) (v : V) (d : Dict K V) → IsMap d → IsMap (insert k v d)
  unfolding insert lookup
  IsMap-insert k v [] h = (refl, tt)
  IsMap-insert k v ((j, w) ∷ d) (h, hm) = elim (Bool-cases (j == k)) [
    | inl q ↦ rw q (subst (λ i. lookup i d ≡ none) (==→eq j k q) h, hm)
    | inr q ↦ rw q (
      ground (arith, lookup-insert k j v d, e.decides j k, e.decides k j, h),
      IsMap-insert k v d hm,
    )
  ]

  pub IsMap-delete : (k : K) (d : Dict K V) → IsMap d → IsMap (delete k d)
  unfolding delete
  IsMap-delete k [] h = tt
  IsMap-delete k ((j, w) ∷ d) (h, hm) = elim (Bool-cases (j == k)) [
    | inl q ↦ rw q (IsMap-delete k d hm)
    | inr q ↦ rw q (ground (arith, lookup-delete k j d, h), IsMap-delete k d hm)
  ]

  length-delete_absent : (k : K) (d : Dict K V) → lookup k d ≡ none → length (delete k d) ≡ length d
  unfolding delete lookup
  length-delete_absent k [] h = refl
  length-delete_absent k ((j, w) ∷ d) h = ground (arith, length-delete_absent k d)

  pub length-delete :
      (k : K) (v : V) (d : Dict K V)
      → IsMap d
      → lookup k d ≡ some v
      → length (delete k d) + 1 ≡ length d
  unfolding delete lookup
  length-delete k v [] h found = absurd cc
  length-delete k v ((j, w) ∷ d) (h, hm) found = elim (Bool-cases (j == k)) [
    | inl q ↦
        rw q
          (omega (arith, length-delete_absent k d (subst (λ i. lookup i d ≡ none) (==→eq j k q) h)))
    | inr q ↦ rw q (omega (arith, length-delete k v d hm (rw q at found)))
  ]

pub ruleset dict_laws = (lookup-insert, lookup-delete)

-- ===== src/Prelude/Texts.antt =====
-- Lists of texts, and the order of `sort.Strings`.
use Prim.Native.Char.{code}
use Prim.Native.String.{String, [] as nil, ◌∷◌ as cons}
use mathlib.Core.Bool.{Bool, true, false, ◌||◌}
use mathlib.Core.List.{List, [], ◌∷◌}
use mathlib.Core.Path.{◌≡◌, refl}
use mathlib.Core.Logic.{inl, inr}
use native.Mathlib.Omega.{arith}
use text.Mathlib.TextEquality.{eq_iff}
use e2b_local.Prelude.Tests.{Bool-cases, ltb, if◌then◌else◌, ◌==◌, string_eq}
use e2b_local.Prelude.Order.{insert_sorted, sort_slice, IsOrder}

abbrev pub among : String → List String → Bool
among v [] = false
among v (s ∷ ss) = let rest = among v ss in if s == v then true else rest

-- No text stands twice.
abbrev pub IsUnique : List String → Type 0
IsUnique [] = Unit
IsUnique (s ∷ ss) = (among s ss ≡ false) × IsUnique ss

unfoldable pub text_before : String → String → Bool
text_before nil nil = false
text_before nil (cons d t) = true
text_before (cons c s) nil = false
text_before (cons c s) (cons d t) =
    let rest = text_before s t in
    if ltb (code c) (code d) then true else if ltb (code d) (code c) then false else rest

text_before_asym : (s t : String) → text_before s t ≡ true → text_before t s ≡ false
unfolding text_before
text_before_asym nil nil h = refl
text_before_asym nil (cons d t) h = refl
text_before_asym (cons c s) nil h = absurd cc
text_before_asym (cons c s) (cons d t) h = ground (arith, text_before_asym s t)

text_before_trans :
    (s t u : String) → text_before t s ≡ false → text_before u t ≡ false → text_before u s ≡ false
unfolding text_before
text_before_trans nil nil nil h k = refl
text_before_trans nil nil (cons e u) h k = refl
text_before_trans nil (cons d t) nil h k = absurd cc
text_before_trans nil (cons d t) (cons e u) h k = refl
text_before_trans (cons c s) nil nil h k = absurd cc
text_before_trans (cons c s) nil (cons e u) h k = absurd cc
text_before_trans (cons c s) (cons d t) nil h k = absurd cc
text_before_trans (cons c s) (cons d t) (cons e u) h k = ground (arith, text_before_trans s t u)

pub text_before-IsOrder : IsOrder text_before
text_before-IsOrder = record { asym = text_before_asym; trans = text_before_trans }

pub among-insert_sorted :
    (less : String → String → Bool) (v a : String) (ss : List String)
    → among v (insert_sorted less a ss) ≡ ((a == v) || among v ss)
unfolding insert_sorted
among-insert_sorted less v a [] = ground arith
among-insert_sorted less v a (s ∷ ss) = ground (arith, among-insert_sorted less v a ss)

pub among-sort_slice :
    (less : String → String → Bool) (v : String) (ss : List String)
    → among v (sort_slice less ss) ≡ among v ss
unfolding sort_slice
among-sort_slice less v [] = refl
among-sort_slice less v (s ∷ ss) =
    ground (arith, among-insert_sorted less v s (sort_slice less ss), among-sort_slice less v ss)

IsUnique-insert_sorted :
    (less : String → String → Bool) (a : String) (ss : List String)
    → among a ss ≡ false
    → IsUnique ss
    → IsUnique (insert_sorted less a ss)
unfolding insert_sorted
IsUnique-insert_sorted less a [] h u = (refl, tt)
IsUnique-insert_sorted less a (s ∷ ss) h (hs, u) = elim (Bool-cases (less s a)) [
  | inl e ↦ rw e (
    ground (arith, among-insert_sorted less s a ss, eq_iff a s, eq_iff s a, hs, h),
    IsUnique-insert_sorted less a ss (ground (arith, h)) u,
  )
  | inr e ↦ rw e (h, (hs, u))
]

pub IsUnique-sort_slice :
    (less : String → String → Bool) (ss : List String) → IsUnique ss → IsUnique (sort_slice less ss)
unfolding sort_slice
IsUnique-sort_slice less [] u = tt
IsUnique-sort_slice less (s ∷ ss) (h, u) =
    IsUnique-insert_sorted less s (sort_slice less ss)
      (ground (arith, among-sort_slice less s ss, h)) (IsUnique-sort_slice less ss u)

-- ===== src/Prelude/Words.antt =====
-- What the gateway uses of Go's `strings` on the characters of a text.
use Prim.Native.Char.{Char, code}
use Prim.Native.Nat.{ℕ, ◌+◌, suc}
use Prim.Native.String.{String, [], ◌∷◌}
use mathlib.Core.Bool.{Bool, true, false, ◌&&◌, ◌||◌}
use mathlib.Core.Option.{Option, none, some}
use e2b_local.Prelude.Tests.{leb, nat_beq, if◌then◌else◌, ◌==◌, string_eq}

-- `unicode.IsSpace`.
unfoldable pub is_space : Char → Bool
is_space c =
    let n = code c in
    (leb 9 n && leb n 13)
    || nat_beq n 32
    || nat_beq n 0x85
    || nat_beq n 0xa0
    || nat_beq n 0x1680
    || (leb 0x2000 n && leb n 0x200a)
    || nat_beq n 0x2028
    || nat_beq n 0x2029
    || nat_beq n 0x202f
    || nat_beq n 0x205f
    || nat_beq n 0x3000

unfoldable pub trim_left : String → String
unfolding is_space
trim_left [] = []
trim_left (c ∷ s) = let rest = trim_left s in if is_space c then rest else c ∷ s

unfoldable pub trim_right : String → String
unfolding is_space
trim_right [] = []
trim_right (c ∷ s) = let rest = trim_right s in if rest == "" && is_space c then [] else c ∷ rest

-- `strings.TrimSpace`.
unfoldable pub trim_space : String → String
unfolding trim_left trim_right
trim_space s = trim_right (trim_left s)

-- The small letter of a capital one, as a number, where both are ASCII.
abbrev pub lower : ℕ → ℕ
lower n = if leb 65 n && leb n 90 then n + 32 else n

-- `strings.EqualFold`, where one of the texts is ASCII.
unfoldable pub equal_fold : String → String → Bool
equal_fold [] [] = true
equal_fold [] (d ∷ t) = false
equal_fold (c ∷ s) [] = false
equal_fold (c ∷ s) (d ∷ t) =
    let rest = equal_fold s t in if nat_beq (lower (code c)) (lower (code d)) then rest else false

-- What stands behind a prefix: `strings.HasPrefix`, `strings.TrimPrefix` and `strings.CutPrefix`.
unfoldable pub cut_prefix : String → String → Option String
cut_prefix [] s = some s
cut_prefix (c ∷ p) [] = none
cut_prefix (c ∷ p) (d ∷ s) =
    let rest = cut_prefix p s in if nat_beq (code c) (code d) then rest else none

abbrev pub has_prefix : String → String → Bool
has_prefix p s = elim (cut_prefix p s) [ none ↦ false | some _ ↦ true ]

unfoldable pub text_length : String → ℕ
text_length [] = 0
text_length (c ∷ s) = suc (text_length s)

-- ===== src/Images/Ids.antt =====
-- What `localTemplateID` makes of any name (internal/gateway/gateway_callbacks.go).
use Prim.Native.Char.{Char, code}
use Prim.Native.Nat.{zero, suc}
use Prim.Native.String.{[] as nil, ◌∷◌ as cons, ◌++◌ as text_append}
use text.Mathlib.TextLemmas.{nil-append, cons-append}
use e2b_local.Prelude.{
  ℕ, ◌-◌, String, ◌≡◌, ◌⊎◌, refl, Bool, true, false, ◌&&◌, ◌||◌, arith, inl, inr, Bool-cases, leb,
  nat_beq, trim_space, ◌==◌, string_eq, if◌then◌else◌,
}
use e2b_local.Images.{
  id_char, id_chars, letter_at, letters, trim_dashes_left, trim_dashes_right, local_template_id,
}

-- A small letter, a digit, or one of `-`, `_`, `.`.
abbrev pub is_id_code : ℕ → Bool
is_id_code n =
    (leb 97 n && leb n 122)
    || (leb 48 n && leb n 57)
    || nat_beq n 45
    || nat_beq n 95
    || nat_beq n 46

abbrev pub is_id : String → Bool
is_id nil = true
is_id (cons c s) = let rest = is_id s in is_id_code (code c) && rest

abbrev pub starts_dashed : String → Bool
starts_dashed nil = false
starts_dashed (cons c s) = nat_beq (code c) 45

abbrev pub ends_dashed : String → Bool
ends_dashed nil = false
ends_dashed (cons c s) = let rest = ends_dashed s in if s == "" then nat_beq (code c) 45 else rest

is_id-append : (s t : String) → is_id s ≡ true → is_id t ≡ true → is_id (text_append s t) ≡ true
is_id-append nil t h k = rw nil-append k
is_id-append (cons c s) t h k = rw cons-append (ground (arith, is_id-append s t, h, k))

is_id-letter_at : (n : ℕ) (s : String) → is_id s ≡ true → is_id (letter_at n s) ≡ true
unfolding letter_at
is_id-letter_at n nil h = refl
is_id-letter_at zero (cons c s) h = ground (arith, h)
is_id-letter_at (suc n) (cons c s) h = is_id-letter_at n s (ground (arith, h))

is_id-special : (a b : Bool) → is_id (if a then "i" else if b then "k" else "-") ≡ true
is_id-special true b = refl
is_id-special false true = refl
is_id-special false false = refl

is_id-id_char : (c : Char) → is_id (id_char c) ≡ true
unfolding id_char
is_id-id_char c = elim (Bool-cases (is_id_code (code c))) [
  | inl e ↦ rw e (ground (arith, e))
  | inr e ↦ elim (Bool-cases (leb 65 (code c) && leb (code c) 90)) [
    | inl l ↦ rw (e, l) (is_id-letter_at (code c - 65) letters refl)
    | inr l ↦ rw (e, l) (is_id-special (nat_beq (code c) 0x130) (nat_beq (code c) 0x212a))
  ]
]

is_id-id_chars : (s : String) → is_id (id_chars s) ≡ true
unfolding id_chars
is_id-id_chars nil = refl
is_id-id_chars (cons c s) =
    is_id-append (id_char c) (id_chars s) (is_id-id_char c) (is_id-id_chars s)

trimmed_left : (s : String) → is_id s ≡ true → is_id (trim_dashes_left s) ≡ true
unfolding trim_dashes_left
trimmed_left nil h = refl
trimmed_left (cons c s) h = ground (arith, trimmed_left s, h)

pub starts-left : (s : String) → starts_dashed (trim_dashes_left s) ≡ false
unfolding trim_dashes_left
starts-left nil = refl
starts-left (cons c s) = ground (arith, starts-left s)

trimmed_right : (s : String) → is_id s ≡ true → is_id (trim_dashes_right s) ≡ true
unfolding trim_dashes_right
trimmed_right nil h = refl
trimmed_right (cons c s) h =
    elim (Bool-cases ((trim_dashes_right s == "") && nat_beq (code c) 45)) [
      | inl e ↦ rw e refl
      | inr e ↦ rw e (ground (arith, trimmed_right s, h))
    ]

pub starts-right :
    (s : String) → starts_dashed s ≡ false → starts_dashed (trim_dashes_right s) ≡ false
unfolding trim_dashes_right
starts-right nil h = refl
starts-right (cons c s) h = elim (Bool-cases ((trim_dashes_right s == "") && nat_beq (code c) 45)) [
  | inl e ↦ rw e refl
  | inr e ↦ rw e h
]

pub ends-right : (s : String) → ends_dashed (trim_dashes_right s) ≡ false
unfolding trim_dashes_right
ends-right nil = refl
ends-right (cons c s) = elim (Bool-cases ((trim_dashes_right s == "") && nat_beq (code c) 45)) [
  | inl e ↦ rw e refl
  | inr e ↦ rw e (ground (arith, ends-right s, e))
]

-- Whatever the name is, the id of a template that is not taken from a new UUID is made of small letters,
-- digits and `-`, `_`, `.`, and neither begins nor ends with a dash.
pub local_template_id_lem :
    (fresh given : String)
    → (local_template_id fresh given ≡ fresh)
      ⊎ ((is_id (local_template_id fresh given) ≡ true)
          × (starts_dashed (local_template_id fresh given) ≡ false)
          × (ends_dashed (local_template_id fresh given) ≡ false))
unfolding local_template_id
local_template_id_lem fresh given =
    let chars = id_chars (trim_space given) in
    let left = trim_dashes_left chars in
    let id = trim_dashes_right left in
    elim (Bool-cases (id == "")) [
      | inl e ↦ inl (rw e refl)
      | inr e ↦ inr (
        rw e (trimmed_right left (trimmed_left chars (is_id-id_chars (trim_space given)))),
        rw e (starts-right left (starts-left chars)),
        rw e (ends-right left),
      )
    ]

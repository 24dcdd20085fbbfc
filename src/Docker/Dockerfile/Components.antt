-- ===== src/Docker/Dockerfile/Components.antt =====
-- internal/backends/docker/runtime.go: `dockerSafeImageComponent`, the part of an image's name that is
-- made of the id of a template or the name of a snapshot.
use Prim.Native.Char.{Char, code}
use Prim.Native.Nat.{zero, suc}
use Prim.Native.String.{[] as nil, ◌∷◌ as cons, ◌++◌ as text_append}
use e2b_local.Prelude.{
  ℕ, ◌-◌, String, Bool, true, false, not, ◌&&◌, ◌||◌, List, [], ◌∷◌, leb, ltb, nat_beq,
  if◌then◌else◌, ◌==◌, string_eq, trim_space, text_length, ◌≤◌, ◌≡◌, arith, inl, inr, Bool-cases,
}
use e2b_local.Images.Ids.{starts_dashed, ends_dashed, starts-left, starts-right, ends-right}
use e2b_local.Images.{letter_at, letters, trim_dashes_left, trim_dashes_right}

-- The small letter or the digit that a character gives, if any.
unfoldable pub alphanumeric : Char → String
unfolding letter_at
alphanumeric c =
    let n = code c in
    if (leb 97 n && leb n 122) || (leb 48 n && leb n 57)
    then cons c nil
    else if leb 65 n && leb n 90
    then letter_at (n - 65) letters
    else if nat_beq n 0x130
    then "i"
    else if nat_beq n 0x212a
    then "k"
    else ""

-- The loop: `started` tells whether anything was written, `dashed` whether a dash was written last.
unfoldable pub component_chars : Bool → Bool → String → String
unfolding alphanumeric
component_chars started dashed nil = nil
component_chars started dashed (cons c s) =
    let written = text_append (alphanumeric c) (component_chars true false s) in
    let skipped = component_chars started dashed s in
    let parted = text_append "-" (component_chars true true s) in
    if not (alphanumeric c == "")
    then written
    else if not started || dashed
    then skipped
    else parted

abbrev pub text_take : ℕ → String → String
text_take zero s = nil
text_take (suc n) nil = nil
text_take (suc n) (cons c s) = cons c (text_take n s)

abbrev pub trim_dashes : String → String
trim_dashes s = trim_dashes_right (trim_dashes_left s)

unfoldable pub docker_safe_image_component : String → String
unfolding component_chars trim_dashes_left trim_dashes_right text_length trim_space
docker_safe_image_component value =
    let result = trim_dashes (component_chars false false (trim_space value)) in
    if ltb 96 (text_length result) then trim_dashes (text_take 96 result) else result

length-trim_left : (s : String) → text_length (trim_dashes_left s) ≤ text_length s
unfolding trim_dashes_left text_length
length-trim_left nil = omega arith
length-trim_left (cons c s) = ground (arith, length-trim_left s)

length-trim_right : (s : String) → text_length (trim_dashes_right s) ≤ text_length s
unfolding trim_dashes_right text_length
length-trim_right nil = omega arith
length-trim_right (cons c s) =
    elim (Bool-cases ((trim_dashes_right s == "") && nat_beq (code c) 45)) [
      | inl e ↦ rw e (omega arith)
      | inr e ↦ rw e (omega (arith, length-trim_right s))
    ]

length-trim : (s : String) → text_length (trim_dashes s) ≤ text_length s
length-trim s = omega (arith, length-trim_right (trim_dashes_left s), length-trim_left s)

length-text_take : (n : ℕ) (s : String) → text_length (text_take n s) ≤ n
unfolding text_length
length-text_take zero s = omega arith
length-text_take (suc n) nil = omega arith
length-text_take (suc n) (cons c s) = omega (arith, length-text_take n s)

trim-undashed :
    (s : String) → (starts_dashed (trim_dashes s) ≡ false) × (ends_dashed (trim_dashes s) ≡ false)
trim-undashed s =
    (starts-right (trim_dashes_left s) (starts-left s), ends-right (trim_dashes_left s))

-- The part of an image's name that is made of any text has 96 characters at most, and neither begins nor
-- ends with a dash.
pub safe_component_lem :
    (value : String)
    → (text_length (docker_safe_image_component value) ≤ 96)
      × (starts_dashed (docker_safe_image_component value) ≡ false)
      × (ends_dashed (docker_safe_image_component value) ≡ false)
unfolding docker_safe_image_component
safe_component_lem value =
    let result = trim_dashes (component_chars false false (trim_space value)) in
    elim (Bool-cases (ltb 96 (text_length result))) [
      | inl e ↦
          let (starts, ends) = trim-undashed (text_take 96 result) in
          (
            rw e (omega (arith, length-trim (text_take 96 result), length-text_take 96 result)),
            rw e starts,
            rw e ends,
          )
      | inr e ↦
          let (starts, ends) = trim-undashed (component_chars false false (trim_space value)) in
          (rw e (ground (arith, e)), rw e starts, rw e ends)
    ]

abbrev join_dashes : List String → String
join_dashes [] = ""
join_dashes (part ∷ []) = part
join_dashes (part ∷ next ∷ parts) =
    let rest = join_dashes (next ∷ parts) in text_append part (text_append "-" rest)

abbrev or_text : String → String → String
or_text text other = if text == "" then other else text

unfoldable pub docker_template_reference : String → List String → String
unfolding docker_safe_image_component
docker_template_reference template_id names =
    let component =
      or_text (docker_safe_image_component template_id)
        (or_text (docker_safe_image_component (join_dashes names)) "template") in
    text_append "e2b-local/templates/" (text_append component ":latest")

-- `seconds` is the text of the Unix time of the creation.
unfoldable pub docker_snapshot_reference : String → String → String → String
unfolding docker_safe_image_component
docker_snapshot_reference sandbox_id name seconds =
    let component = or_text (docker_safe_image_component name) (
      or_text (docker_safe_image_component (text_append sandbox_id (text_append "-" seconds)))
        (text_append "snapshot-" seconds)) in
    text_append "e2b-local/snapshots/" (text_append component ":default")

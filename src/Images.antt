-- ===== src/Images.antt =====
-- The names of images and templates: shortDockerImageName, dockerTemplateName and
-- isDockerImageReference (internal/gateway/shared_helpers.go), dockerImageTag, templateMatchesID,
-- splitTemplateNameAndTags and localTemplateID (internal/gateway/gateway_callbacks.go).
pub mod Laws
pub mod Ids
use Prim.Native.Char.{Char, code}
use Prim.Native.Nat.{zero, suc}
use Prim.Native.String.{[] as nil, ◌∷◌ as cons, ◌++◌ as text_append}
use e2b_local.Prelude.{
  ℕ, ◌-◌, String, Bool, true, false, not, ◌&&◌, ◌||◌, Option, none, some, List, [], ◌∷◌, ◌++◌, leb,
  nat_beq, if◌then◌else◌, ◌==◌, string_eq, trim_space,
}
use e2b_local.Prelude.Texts.{among}
use e2b_local.Names.{normalized_tags}

abbrev pub colon : ℕ
colon = 58

abbrev pub slash : ℕ
slash = 47

abbrev pub at_sign : ℕ
at_sign = 64

abbrev pub contains : ℕ → String → Bool
contains n nil = false
contains n (cons c s) = let rest = contains n s in nat_beq (code c) n || rest

abbrev pub in_front : Char → Option (String × String) → Option (String × String)
in_front c none = none
in_front c (some (before, after)) = some (cons c before, after)

-- What stands before and after the first character with a number (`strings.Index`).
unfoldable pub cut_first : ℕ → String → Option (String × String)
cut_first n nil = none
cut_first n (cons c s) =
    let rest = in_front c (cut_first n s) in if nat_beq (code c) n then some (nil, s) else rest

abbrev pub or_here : ℕ → Char → String → Option (String × String) → Option (String × String)
or_here n c s (some (before, after)) = some (cons c before, after)
or_here n c s none = if nat_beq (code c) n then some (nil, s) else none

-- The same for the last one (`strings.LastIndex`).
unfoldable pub cut_last : ℕ → String → Option (String × String)
cut_last n nil = none
cut_last n (cons c s) = or_here n c s (cut_last n s)

abbrev pub or_after : String → Option (String × String) → String
or_after s none = s
or_after s (some (before, after)) = after

abbrev pub or_before : String → Option (String × String) → String
or_before s none = s
or_before s (some (before, after)) = before

unfoldable pub short_docker_image_name : String → String
unfolding cut_last trim_space
short_docker_image_name image_ref =
    let ref = trim_space image_ref in or_after ref (cut_last slash ref)

abbrev pub without_tag : String → Option (String × String) → String
without_tag name (some (before, digest)) = before
without_tag name none = or_before name (cut_last colon name)

unfoldable pub docker_template_name : String → String
unfolding short_docker_image_name cut_first cut_last
docker_template_name image_ref =
    let name = short_docker_image_name image_ref in without_tag name (cut_first at_sign name)

unfoldable pub is_docker_image_reference : String → Bool
unfolding cut_last trim_space
is_docker_image_reference given =
    let ref = trim_space given in
    contains at_sign ref || contains colon (or_after ref (cut_last slash ref))

-- The last colon stands behind the last slash exactly if there is one behind the slash.
abbrev pub tag_of : Option (String × String) → String
tag_of none = ""
tag_of (some (name, tag)) = tag

unfoldable pub docker_image_tag : String → String
unfolding cut_last trim_space
docker_image_tag image_ref =
    let ref = trim_space image_ref in
    if contains at_sign ref then "" else tag_of (cut_last colon (or_after ref (cut_last slash ref)))

-- The fields that `templateMatchesID` reads.
unfoldable pub template_matches : String → String → List String → List String → String → Bool
unfolding short_docker_image_name docker_template_name trim_space
template_matches template_id image_ref names aliases given =
    let id = trim_space given in
    not (id == "")
    && ((template_id == id)
        || (image_ref == id)
        || (not (image_ref == "")
            && ((short_docker_image_name image_ref == id)
                || (docker_template_name image_ref == id)))
        || among id names
        || among id aliases)

-- A tag in the name: it is not empty, nor is the name, and it has no slash.
abbrev pub name_and_tag : String → Option (String × String) → String × List String
name_and_tag value none = (value, [])
name_and_tag value (some (name, tag)) =
    if (name == "") || (tag == "") || contains slash tag then (value, []) else (name, tag ∷ [])

-- `fresh` is the name with a new UUID, for a name that is empty.
unfoldable pub split_template_name_and_tags :
    String → String → Option (List String) → String × List String
unfolding cut_last trim_space
split_template_name_and_tags fresh given request_tags =
    let value = trim_space given in
    let (name, tags) = name_and_tag value (cut_last colon value) in
    (
      if name == "" then fresh else name,
      normalized_tags (tags ++ elim request_tags [ none ↦ [] | some more ↦ more ]),
    )

abbrev pub letters : String
letters = "abcdefghijklmnopqrstuvwxyz"

unfoldable pub letter_at : ℕ → String → String
letter_at n nil = "-"
letter_at zero (cons c s) = cons c nil
letter_at (suc n) (cons c s) = letter_at n s

-- A character of an id, from one of the name: small letters, digits and `-`, `_`, `.` stay, capital
-- letters become small ones, as do the only two others whose small letter is in ASCII, and all else
-- becomes `-`.
unfoldable pub id_char : Char → String
unfolding letter_at
id_char c =
    let n = code c in
    if (leb 97 n && leb n 122)
      || (leb 48 n && leb n 57)
      || nat_beq n 45
      || nat_beq n 95
      || nat_beq n 46
    then cons c nil
    else if leb 65 n && leb n 90
    then letter_at (n - 65) letters
    else if nat_beq n 0x130
    then "i"
    else if nat_beq n 0x212a
    then "k"
    else "-"

unfoldable pub id_chars : String → String
unfolding id_char
id_chars nil = nil
id_chars (cons c s) = text_append (id_char c) (id_chars s)

-- `strings.Trim(s, "-")`.
unfoldable pub trim_dashes_left : String → String
trim_dashes_left nil = nil
trim_dashes_left (cons c s) =
    let rest = trim_dashes_left s in if nat_beq (code c) 45 then rest else cons c s

unfoldable pub trim_dashes_right : String → String
trim_dashes_right nil = nil
trim_dashes_right (cons c s) =
    let rest = trim_dashes_right s in
    if (rest == "") && nat_beq (code c) 45 then nil else cons c rest

unfoldable pub local_template_id : String → String → String
unfolding id_chars trim_dashes_left trim_dashes_right trim_space
local_template_id fresh given =
    let id = trim_dashes_right (trim_dashes_left (id_chars (trim_space given))) in
    if id == "" then fresh else id

-- ===== src/Names.antt =====
-- internal/gateway: the lists of names and tags of a template (`appendUniqueStrings` of
-- gateway_callbacks.go, `normalizedTags` of management_store.go).
use e2b_local.Prelude.{
  String, ◌≡◌, not, ◌&&◌, ◌||◌, List, [], ◌∷◌, ◌++◌, map, arith, ◌==◌, string_eq, if◌then◌else◌,
  trim_space, Bool-cases, inl, inr,
}
use text.Mathlib.TextEquality.{eq_iff}
use e2b_local.Prelude.Order.{sort_slice, IsSorted, sort_slice-IsSorted}
use e2b_local.Prelude.Texts.{
  among, IsUnique, text_before, text_before-IsOrder, among-sort_slice, IsUnique-sort_slice,
}

-- The loop over a list with the set `seen`.
unfoldable pub first_seen : List String → List String → List String
first_seen seen [] = []
first_seen seen (value ∷ values) =
    let v = trim_space value in
    let skipped = first_seen seen values in
    let added = first_seen (v ∷ seen) values in
    if v == "" || among v seen then skipped else v ∷ added

-- The source has one loop for each of the two lists, with one `seen`.
unfoldable pub append_unique_strings : List String → List String → List String
unfolding first_seen
append_unique_strings values additions = first_seen [] (values ++ additions)

unfoldable pub normalized_tags : List String → List String
unfolding first_seen
normalized_tags tags = sort_slice text_before (first_seen [] tags)

among-first_seen :
    (v : String) (seen values : List String)
    → among v (first_seen seen values)
      ≡ (not (v == "") && (not (among v seen) && among v (map trim_space values)))
unfolding first_seen
among-first_seen v seen [] = ground arith
among-first_seen v seen (value ∷ values) = ground (
  arith,
  among-first_seen v seen values,
  among-first_seen v (trim_space value ∷ seen) values,
  eq_iff (trim_space value) v,
  eq_iff v (trim_space value),
)

IsUnique-first_seen : (seen values : List String) → IsUnique (first_seen seen values)
unfolding first_seen
IsUnique-first_seen seen [] = tt
IsUnique-first_seen seen (value ∷ values) =
    elim (Bool-cases (trim_space value == "" || among (trim_space value) seen)) [
      | inl e ↦ rw (e, IsUnique) (IsUnique-first_seen seen values)
      | inr e ↦
          rw (e, IsUnique)
            (
              ground (
                arith,
                among-first_seen (trim_space value) (trim_space value ∷ seen) values,
                eq_iff (trim_space value) (trim_space value),
              ),
              IsUnique-first_seen (trim_space value ∷ seen) values,
            )
    ]

-- The tags of a template are sorted, none stands twice, and a text is one of them exactly if it is not
-- empty and is what trimming leaves of one of the given tags.
pub normalized_tags_lem :
    (tags : List String)
    → IsSorted text_before (normalized_tags tags)
      × (IsUnique (normalized_tags tags))
      × ((v : String)
          → among v (normalized_tags tags) ≡ (not (v == "") && among v (map trim_space tags)))
unfolding normalized_tags
normalized_tags_lem tags = (
  sort_slice-IsSorted text_before-IsOrder (first_seen [] tags),
  IsUnique-sort_slice text_before (first_seen [] tags) (IsUnique-first_seen [] tags),
  λ v.
      ground
        (arith, among-sort_slice text_before v (first_seen [] tags), among-first_seen v [] tags),
)

-- ===== src/Archive/Paths.antt =====
-- Which names of archive entries `SafeTemplateBuildContextTarName` accepts
-- (internal/gateway/template_files.go), and what it makes of them.
use Prim.Native.Char.{code}
use Prim.Native.String.{[] as nil, ◌∷◌ as cons, ◌++◌ as text_append}
use mathlib.Core.Path.{subst}
use text.Mathlib.TextEquality.{eq_iff, Char-path}
use text.Mathlib.TextLemmas.{nil-append, cons-append}
use e2b_local.Prelude.{
  String, ◌≡◌, ◌≢◌, refl, sym, ap, ◌∙◌, Bool, true, false, ◌||◌, Option, none, some, List, [], ◌∷◌,
  keep, All, not, if◌then◌else◌, ◌==◌, string_eq, trim_space, has_prefix, cut_prefix, inl, inr,
  Bool-cases, arith, nat_beq,
}
use e2b_local.Prelude.Paths.{
  slashed, is_rooted, split_slash, join_slash, has_up, clean, clean_parts, clean_part, onto, or_dot,
  NoSlash, IsPlain, split_slash-NoSlash, split-join,
}
use e2b_local.Archive.{safe_template_build_context_tar_name, is_refused, leads_out}

-- A part that is a name.
abbrev pub is_named : String → Bool
is_named part = not ((part == "") || (part == "."))

-- The parts of a name that are names.
abbrev pub named_parts : String → List String
named_parts name = keep is_named (split_slash name)

onto-clean_parts :
    (kept parts : List String)
    → has_up parts ≡ false
    → onto (clean_parts false kept parts) [] ≡ onto kept (keep is_named parts)
unfolding onto clean_parts clean_part
onto-clean_parts kept [] h = refl
onto-clean_parts kept (part ∷ parts) h = elim (Bool-cases ((part == "") || (part == "."))) [
  | inl e ↦ rw e (onto-clean_parts kept parts (ground (arith, h)))
  | inr e ↦
      let u : (part == "..") ≡ false = ground (arith, h) in
      rw (e, u) (onto-clean_parts (part ∷ kept) parts (ground (arith, h)))
]

keep-IsPlain :
    (parts : List String)
    → All NoSlash parts
    → has_up parts ≡ false
    → All IsPlain (keep is_named parts)
keep-IsPlain [] single up = tt
keep-IsPlain (part ∷ parts) (p, single) up = elim (Bool-cases ((part == "") || (part == "."))) [
  | inl e ↦ rw e (keep-IsPlain parts single (ground (arith, up)))
  | inr e ↦ rw e (
    record {
      named = ground (arith, e, eq_iff part "");
      here = ground (arith, e, eq_iff part ".");
      up = ground (arith, up, eq_iff part "..");
      single = p;
    },
    keep-IsPlain parts single (ground (arith, up)),
  )
]

IsPlain-NoSlash : (parts : List String) → All IsPlain parts → All NoSlash parts
IsPlain-NoSlash [] h = tt
IsPlain-NoSlash (part ∷ parts) (p, h) = (p.single, IsPlain-NoSlash parts h)

cut_prefix-append :
    (p s : String) → has_prefix p s ≡ true → (rest : String) × (s ≡ text_append p rest)
unfolding cut_prefix
cut_prefix-append nil s h = (s, sym (nil-append s))
cut_prefix-append (cons c p) nil h = absurd (cc h)
cut_prefix-append (cons c p) (cons d s) h =
    let same : nat_beq (code c) (code d) ≡ true = ground (arith, h) in
    let (rest, e) = cut_prefix-append p s (ground (arith, h, same)) in
    (
      rest,
      ap (λ t. cons d t) e
          ∙ (ap (λ x. cons x (text_append p rest)) (Char-path d c (ground (arith, same)))
              ∙ sym (cons-append c p rest)),
    )

abbrev first_of : List String → String
first_of [] = ""
first_of (part ∷ parts) = part

first_of-up : (rest : String) → first_of (split_slash (text_append "../" rest)) ≡ ".."
unfolding split_slash
first_of-up rest = rw (cons-append, cons-append, cons-append) refl

-- A name whose first part is plain does not lead out of a directory.
leads_out-plain : (name : String) → IsPlain (first_of (split_slash name)) → leads_out name ≡ false
unfolding split_slash
leads_out-plain name p =
    let moved : (t : String) → name ≡ t → IsPlain (first_of (split_slash t)) =
      λ t e. subst (λ n. IsPlain (first_of (split_slash n))) e p in
    let empty : name ≢ "" = λ e. (moved "" e).named refl in
    let here : name ≢ "." = λ e. (moved "." e).here refl in
    let up : name ≢ ".." = λ e. (moved ".." e).up refl in
    elim (Bool-cases (has_prefix "../" name)) [
      | inl h ↦
          let (rest, e) = cut_prefix-append "../" name h in
          absurd ((moved (text_append "../" rest) e).up (first_of-up rest))
      | inr h ↦
          rw h (ground (arith, empty, here, up, eq_iff name "", eq_iff name ".", eq_iff name ".."))
    ]

-- What is made of a name that is not refused: its named parts, joined, where there is one.
abbrev pub joined : List String → Option String
joined [] = none
joined (part ∷ parts) = some (join_slash (part ∷ parts))

checked-join :
    (parts : List String)
    → All IsPlain parts
    → (if leads_out (or_dot (join_slash parts)) then none else some (or_dot (join_slash parts)))
      ≡ joined parts
unfolding join_slash
checked-join [] h = refl
checked-join (part ∷ parts) (p, h) =
    let name = join_slash (part ∷ parts) in
    let e : first_of (split_slash name) ≡ part =
      ap first_of (split-join part parts (IsPlain-NoSlash (part ∷ parts) (p, h))) in
    let inside = leads_out-plain name (subst IsPlain (sym e) p) in
    let named : (name == "") ≡ false = ground (arith, inside) in rw (named, inside) refl

clean-named :
    (name : String)
    → is_rooted name ≡ false
    → has_up (split_slash name) ≡ false
    → clean name ≡ or_dot (join_slash (named_parts name))
unfolding clean onto
clean-named name root up =
    rw root (ap (λ parts. or_dot (join_slash parts)) (onto-clean_parts [] (split_slash name) up))

-- A name with a `..` part, a rooted one and an empty one are refused, spaces around it and the kind of
-- slash apart. Of any other the parts that are neither empty nor `.` are left, joined by slashes, and
-- it is refused if there are none.
pub safe_name-parts :
    (given : String)
    → safe_template_build_context_tar_name given ≡ (
        if is_refused (slashed (trim_space given))
        then none
        else joined (named_parts (slashed (trim_space given))))
unfolding safe_template_build_context_tar_name
safe_name-parts given = elim (Bool-cases (is_refused (slashed (trim_space given)))) [
  | inl e ↦ rw e refl
  | inr e ↦
      let name = slashed (trim_space given) in
      let up : has_up (split_slash name) ≡ false = ground (arith, e) in
      rw (e, clean-named name (ground (arith, e)) up)
        (checked-join (named_parts name)
          (keep-IsPlain (split_slash name) (split_slash-NoSlash name) up))
]

accepted-parts :
    (given out : String)
    → safe_template_build_context_tar_name given ≡ some out
    → (has_up (split_slash (slashed (trim_space given))) ≡ false)
      × (joined (named_parts (slashed (trim_space given))) ≡ some out)
accepted-parts given out h = elim (Bool-cases (is_refused (slashed (trim_space given)))) [
  | inl e ↦ absurd (ground (arith, h, e, safe_name-parts given))
  | inr e ↦ (ground (arith, e), ground (arith, h, e, safe_name-parts given))
]

split-joined :
    (parts : List String) (out : String)
    → All IsPlain parts
    → joined parts ≡ some out
    → split_slash out ≡ parts
split-joined [] out h e = absurd (cc e)
split-joined (part ∷ parts) out h e =
    subst (λ t. split_slash t ≡ part ∷ parts) (ground (arith, e))
      (split-join part parts (IsPlain-NoSlash (part ∷ parts) h))

-- The name that is made of an accepted name splits into the named parts of the given one, and each of
-- them leads from a directory into it: it is not empty, not `.`, not `..`, and has no slash.
pub safe_name-IsPlain :
    (given out : String)
    → safe_template_build_context_tar_name given ≡ some out
    → (split_slash out ≡ named_parts (slashed (trim_space given))) × All IsPlain (split_slash out)
safe_name-IsPlain given out h =
    let name = slashed (trim_space given) in
    let (up, e) = accepted-parts given out h in
    let plain = keep-IsPlain (split_slash name) (split_slash-NoSlash name) up in
    let parts = split-joined (named_parts name) out plain e in
    (parts, subst (All IsPlain) (sym parts) plain)

-- ===== src/Prelude/Paths.antt =====
-- What the gateway uses of Go's `strings` and `path` on paths with slashes.
use Prim.Native.Char.{Char, code}
use Prim.Native.Nat.{ℕ}
use Prim.Native.String.{String, [] as nil, ◌∷◌ as cons, ◌++◌ as text_append}
use mathlib.Core.Bool.{Bool, false, ◌||◌}
use mathlib.Core.List.{List, [], ◌∷◌}
use mathlib.Core.Logic.{◌≢◌, inl, inr}
use mathlib.Core.Path.{◌≡◌, refl, ap, ◌∙◌}
use native.Mathlib.Omega.{arith}
use text.Mathlib.TextEquality.{eq_iff}
use text.Mathlib.TextLemmas.{nil-append, cons-append}
use e2b_local.Prelude.Tests.{Bool-cases, nat_beq, if◌then◌else◌, ◌==◌, string_eq}
use e2b_local.Prelude.Lists.{All}

abbrev pub slash : ℕ
slash = 47

abbrev pub backslash : ℕ
backslash = 92

abbrev pub longer : Char → List String → List String
longer c [] = cons c nil ∷ []
longer c (part ∷ parts) = cons c part ∷ parts

-- `strings.Split(s, "/")`.
unfoldable pub split_slash : String → List String
split_slash nil = nil ∷ []
split_slash (cons c s) =
    let rest = split_slash s in if nat_beq (code c) slash then nil ∷ rest else longer c rest

-- `strings.Join(parts, "/")`.
unfoldable pub join_slash : List String → String
join_slash [] = ""
join_slash (part ∷ []) = part
join_slash (part ∷ next ∷ parts) = text_append part (text_append "/" (join_slash (next ∷ parts)))

-- `strings.ReplaceAll(s, "\\", "/")`.
unfoldable pub slashed : String → String
slashed nil = nil
slashed (cons c s) =
    let rest = slashed s in if nat_beq (code c) backslash then text_append "/" rest else cons c rest

-- `strings.HasPrefix(s, "/")`.
unfoldable pub is_rooted : String → Bool
is_rooted nil = false
is_rooted (cons c s) = nat_beq (code c) slash

-- One part of a path that `path.Clean` reads: the kept parts stand in front, the last one first.
abbrev pub cleaned_up : Bool → List String → List String
cleaned_up rooted [] = if rooted then [] else ".." ∷ []
cleaned_up rooted (last ∷ kept) = if last == ".." then ".." ∷ last ∷ kept else kept

unfoldable pub clean_part : Bool → List String → String → List String
clean_part rooted kept part =
    if (part == "") || (part == ".")
    then kept
    else if part == ".."
    then cleaned_up rooted kept
    else part ∷ kept

unfoldable pub clean_parts : Bool → List String → List String → List String
unfolding clean_part
clean_parts rooted kept [] = kept
clean_parts rooted kept (part ∷ parts) = clean_parts rooted (clean_part rooted kept part) parts

unfoldable pub onto : List String → List String → List String
onto [] out = out
onto (part ∷ kept) out = onto kept (part ∷ out)

abbrev pub or_dot : String → String
or_dot text = if text == "" then "." else text

-- `path.Clean`.
unfoldable pub clean : String → String
unfolding clean_parts onto split_slash join_slash is_rooted
clean name =
    let parts = join_slash (onto (clean_parts (is_rooted name) [] (split_slash name)) []) in
    if is_rooted name then text_append "/" parts else or_dot parts

-- A part of a path: there is no slash in it.
abbrev pub NoSlash : String → Type 0
NoSlash nil = Unit
NoSlash (cons c s) = (nat_beq (code c) slash ≡ false) × NoSlash s

longer-NoSlash :
    (c : Char) (parts : List String)
    → nat_beq (code c) slash ≡ false
    → All NoSlash parts
    → All NoSlash (longer c parts)
longer-NoSlash c [] e h = ((e, tt), tt)
longer-NoSlash c (part ∷ parts) e (p, h) = ((e, p), h)

pub split_slash-NoSlash : (s : String) → All NoSlash (split_slash s)
unfolding split_slash
split_slash-NoSlash nil = (tt, tt)
split_slash-NoSlash (cons c s) =
    ground (arith, split_slash-NoSlash s, longer-NoSlash c (split_slash s))

split-part :
    (part : String) (s : String) (rest : List String)
    → NoSlash part
    → split_slash s ≡ nil ∷ rest
    → split_slash (text_append part s) ≡ part ∷ rest
unfolding split_slash
split-part nil s rest h e = rw nil-append e
split-part (cons c part) s rest (p, h) e = rw cons-append (rw (split-part part s rest h e, p) refl)

split-last : (part : String) → NoSlash part → split_slash part ≡ part ∷ []
unfolding split_slash
split-last nil h = refl
split-last (cons c part) (p, h) = rw (split-last part h, p) refl

split-slash_first : (s : String) → split_slash (text_append "/" s) ≡ nil ∷ split_slash s
unfolding split_slash
split-slash_first s = rw (cons-append, nil-append) refl

-- Splitting a joined path gives its parts back.
pub split-join :
    (part : String) (parts : List String)
    → All NoSlash (part ∷ parts)
    → split_slash (join_slash (part ∷ parts)) ≡ part ∷ parts
unfolding join_slash
split-join part [] (p, h) = split-last part p
split-join part (next ∷ parts) (p, h) =
    split-part part (text_append "/" (join_slash (next ∷ parts))) (next ∷ parts) p
      (split-slash_first (join_slash (next ∷ parts)) ∙ ap (λ t. nil ∷ t) (split-join next parts h))

-- A part that leads from a directory into it, and nowhere else.
pub record IsPlain (part : String) : Type 0 where
  pub named : part ≢ ""
  pub here : part ≢ "."
  pub up : part ≢ ".."
  pub single : NoSlash part

abbrev pub has_up : List String → Bool
has_up [] = false
has_up (part ∷ parts) = (part == "..") || has_up parts

clean_part-IsPlain :
    (rooted : Bool) (kept : List String) (part : String)
    → All IsPlain kept
    → NoSlash part
    → (part == "..") ≡ false
    → All IsPlain (clean_part rooted kept part)
unfolding clean_part
clean_part-IsPlain rooted kept part h single up =
    elim (Bool-cases ((part == "") || (part == "."))) [
      | inl e ↦ rw e h
      | inr e ↦
          rw (e, up)
            (
              record {
                named = ground (arith, e, eq_iff part "");
                here = ground (arith, e, eq_iff part ".");
                up = ground (arith, up, eq_iff part "..");
                single = single;
              },
              h,
            )
    ]

pub clean_parts-IsPlain :
    (rooted : Bool) (kept parts : List String)
    → All IsPlain kept
    → All NoSlash parts
    → has_up parts ≡ false
    → All IsPlain (clean_parts rooted kept parts)
unfolding clean_parts
clean_parts-IsPlain rooted kept [] h single up = h
clean_parts-IsPlain rooted kept (part ∷ parts) h (p, single) up =
    clean_parts-IsPlain rooted (clean_part rooted kept part) parts
      (clean_part-IsPlain rooted kept part h p (ground (arith, up))) single (ground (arith, up))

pub All-onto :
    (P : String → Type 0) (kept out : List String) → All P kept → All P out → All P (onto kept out)
unfolding onto
All-onto P [] out h g = g
All-onto P (part ∷ kept) out (p, h) g = All-onto P kept (part ∷ out) h (p, g)

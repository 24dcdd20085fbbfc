-- ===== src/Docker/Dockerfile.antt =====
-- internal/backends/docker/runtime.go: the Dockerfile that is made of the steps of a template's build,
-- and the names of the images that are built.
pub mod Components
use Prim.Native.Char.{Char, code}
use Prim.Native.Nat.{zero, suc}
use Prim.Native.String.{[] as nil, ◌∷◌ as cons, ◌++◌ as text_append}
use e2b_local.Prelude.{
  ℕ, ◌-◌, String, Bool, true, false, not, ◌&&◌, ◌||◌, Option, none, some, List, [], ◌∷◌, ◌++◌, leb,
  ltb, nat_beq, if◌then◌else◌, ◌==◌, string_eq, trim_space, text_length,
}
use e2b_local.Errors.{Error, Result, ok, err, bad_request, plain, gateway, gateway_error_status}
use e2b_local.Images.{letter_at, letters, trim_dashes_left, trim_dashes_right}

pub record TemplateStep : Type 0 where
  pub kind : String
  pub args : List String
  pub files_hash : Option String

abbrev pub capitals : String
capitals = "ABCDEFGHIJKLMNOPQRSTUVWXYZ"

-- `strings.ToUpper`, where the capital letter is in ASCII.
unfoldable pub upper_char : Char → String
unfolding letter_at
upper_char c =
    let n = code c in
    if leb 97 n && leb n 122
    then letter_at (n - 97) capitals
    else if nat_beq n 0x131
    then "I"
    else if nat_beq n 0x17f
    then "S"
    else cons c nil

unfoldable pub to_upper : String → String
unfolding upper_char
to_upper nil = nil
to_upper (cons c s) = text_append (upper_char c) (to_upper s)

-- `strings.Join(parts, " ")`.
abbrev pub join_spaces : List String → String
join_spaces [] = ""
join_spaces (part ∷ []) = part
join_spaces (part ∷ next ∷ parts) =
    let rest = join_spaces (next ∷ parts) in text_append part (text_append " " rest)

abbrev pub is_blank : String → Bool
is_blank s = trim_space s == ""

-- `args[n]`, with an empty text where it is out of range: there each use asks for the length first.
abbrev pub arg : ℕ → List String → String
arg n [] = ""
arg zero (a ∷ args) = a
arg (suc n) (a ∷ args) = arg n args

abbrev pub text_of : Option String → String
text_of none = ""
text_of (some s) = trim_space s

-- The flag of a `COPY`, where it has a value.
abbrev pub copy_option : String → String → List String
copy_option flag value = if is_blank value then [] else text_append flag (trim_space value) ∷ []

abbrev pub with_pair : String → Result (List String) → Result (List String)
with_pair pair (err e) = err e
with_pair pair (ok pairs) = ok (pair ∷ pairs)

-- The pairs of an `ENV`; `quote` is `strconv.Quote`.
unfoldable pub env_pairs : (String → String) → List String → Result (List String)
unfolding trim_space
env_pairs quote [] = ok []
env_pairs quote (key ∷ []) = err (plain "ENV requires both key and value arguments")
env_pairs quote (key ∷ value ∷ args) =
    let rest = env_pairs quote args in
    if is_blank key
    then err (plain "ENV key cannot be empty")
    else with_pair (text_append (trim_space key) (text_append "=" (quote value))) rest

abbrev pub env_line : Result (List String) → Result String
env_line (err e) = err e
env_line (ok pairs) = ok (text_append "ENV " (join_spaces pairs))

abbrev pub is_odd : List String → Bool
is_odd [] = false
is_odd (a ∷ args) = let rest = is_odd args in not rest

abbrev pub has_no_args : List String → Bool
has_no_args [] = true
has_no_args (a ∷ args) = false

abbrev pub run_line : List String → Result String
run_line args =
    if is_blank (arg 0 args)
    then err (plain "RUN requires command argument")
    else if is_blank (arg 1 args)
    then ok (text_append "RUN " (arg 0 args))
    else ok (
        text_append "USER "
          (text_append (trim_space (arg 1 args)) (text_append "\nRUN " (arg 0 args))))

abbrev pub copy_line : TemplateStep → Result String
copy_line step =
    let args = step.args in
    if is_blank (arg 0 args) || is_blank (arg 1 args)
    then err (plain "COPY requires local path and container path arguments")
    else if text_of step.files_hash == ""
    then err (plain "COPY requires filesHash")
    else ok (
        join_spaces (
          "COPY"
          ∷ (copy_option "--chown=" (arg 2 args)
              ++ (copy_option "--chmod=" (arg 3 args) ++ (arg 0 args ∷ arg 1 args ∷ [])))))

abbrev pub env_step : (String → String) → List String → Result String
env_step quote args =
    if has_no_args args
    then err (plain "ENV requires key/value arguments")
    else if is_odd args
    then err (plain "ENV requires both key and value arguments")
    else env_line (env_pairs quote args)

unfoldable pub dockerfile_instruction_from_template_step :
    (String → String) → TemplateStep → Result String
unfolding to_upper env_pairs trim_space
dockerfile_instruction_from_template_step quote step =
    let kind = to_upper (trim_space step.kind) in
    let args = step.args in
    if kind == ""
    then err (plain "type is required")
    else if kind == "RUN"
    then run_line args
    else if kind == "COPY"
    then copy_line step
    else if kind == "ENV"
    then env_step quote args
    else if kind == "WORKDIR"
    then (if is_blank (arg 0 args)
        then err (plain "WORKDIR requires path argument")
        else ok (text_append "WORKDIR " (arg 0 args)))
    else if kind == "USER"
    then (if is_blank (arg 0 args)
        then err (plain "USER requires username argument")
        else ok (text_append "USER " (trim_space (arg 0 args))))
    else if has_no_args args
    then err (plain "the step requires arguments")
    else ok (text_append kind (text_append " " (join_spaces args)))

abbrev step_error : Error → Error
step_error e = gateway (gateway_error_status e 400)

abbrev pub with_line : String → Result String → Result String
with_line line (err e) = err e
with_line line (ok rest) =
    ok (if line == "" then rest else text_append line (text_append "\n" rest))

-- The loop over the steps.
unfoldable pub step_lines : (String → String) → List TemplateStep → Result String
unfolding dockerfile_instruction_from_template_step
step_lines quote [] = ok ""
step_lines quote (step ∷ steps) =
    let rest = step_lines quote steps in
    elim (dockerfile_instruction_from_template_step quote step) [
      | err e ↦ err (step_error e)
      | ok line ↦ with_line line rest
    ]

abbrev from_image : (String → Result String) → String → String → Result String
from_image resolve image template =
    if template == ""
    then ok image
    else elim (resolve template) [ err e ↦ err bad_request | ok ref ↦ ok ref ]

abbrev pub with_base : (String → String) → List TemplateStep → Result String → Result String
with_base quote steps (err e) = err e
with_base quote steps (ok image) =
    if image == "" then err bad_request else elim (step_lines quote steps) [
      | err e ↦ err e
      | ok lines ↦ ok (text_append "FROM " (text_append image (text_append "\n" lines)))
    ]

-- `resolve` is `resolveTemplateImage`, which asks Docker.
unfoldable pub dockerfile_from_template_build_start :
    (String → Result String)
    → (String → String)
    → Option String
    → Option String
    → List TemplateStep
    → Result String
unfolding step_lines trim_space
dockerfile_from_template_build_start resolve quote image template steps =
    if not (text_of image == "") && not (text_of template == "")
    then err bad_request
    else with_base quote steps (from_image resolve (text_of image) (text_of template))

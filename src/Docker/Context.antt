-- ===== src/Docker/Context.antt =====
-- internal/backends/docker/runtime.go: `appendTemplateFileToDockerBuildContext`, which copies the
-- entries of an uploaded archive into the context of a build.
pub mod Laws
use e2b_local.Prelude.{
  ℕ, ◌+◌, ◌-◌, String, ◌≡◌, Bool, true, false, not, Option, none, some, List, [], ◌∷◌, ltb,
  if◌then◌else◌, ◌==◌, string_eq,
}
use e2b_local.Prelude.Int.{ℤ, pos, negsuc}
use e2b_local.Errors.{Error, Result, ok, err, plain}
use e2b_local.Archive.{
  Header, TarReader, eof, broken, entry, safe_template_build_context_tar_name,
  max_template_archive_entries, max_template_archive_uncompressed_bytes,
}

abbrev pub unsafe_path : Error
unsafe_path = plain "uploaded template file archive contains unsafe path"

abbrev pub too_many_bytes : Error
too_many_bytes = plain "uploaded template file archive exceeds the uncompressed bytes"

-- The name of a link is made safe where there is one.
abbrev pub safe_link : String → Option String
safe_link link = if link == "" then some "" else safe_template_build_context_tar_name link

-- `copiedHeader`.
unfoldable pub copied_header : Header → Result Header
copied_header h = elim (safe_template_build_context_tar_name h.name) [
  | none ↦ err unsafe_path
  | some name ↦ elim (safe_link h.linkname) [
    | none ↦ err unsafe_path
    | some link ↦ ok (record h { name = name; linkname = link })
  ]
]

abbrev pub size_error : ℕ → Header → Option Error
size_error bytes h = if not h.regular then none else elim h.size [
  | negsuc _ ↦ some (plain "uploaded template file archive contains an invalid size")
  | pos n ↦
      if ltb (max_template_archive_uncompressed_bytes - bytes) n then some too_many_bytes else none
]

-- The bytes so far, with those of the entry.
abbrev pub data_copied : ℕ → Header → Option ℕ → Result ℕ
data_copied bytes h body = if not h.regular then ok bytes else elim body [
  | none ↦ err (plain "copy uploaded template file to build context")
  | some n ↦
      if ltb max_template_archive_uncompressed_bytes (bytes + n)
      then err too_many_bytes
      else ok (bytes + n)
]

abbrev pub sized : ℕ → Header → Option ℕ → Bool → Option Error → Result ℕ
sized bytes h body writes (some e) = err e
sized bytes h body writes none =
    if writes
    then data_copied bytes h body
    else err (plain "write uploaded template file to build context")

abbrev pub written : ℕ → Option ℕ → (Header → Bool) → Result Header → Result (Header × ℕ)
written bytes body writes (err e) = err e
written bytes body writes (ok h) = elim (sized bytes h body (writes h) (size_error bytes h)) [
  | err e ↦ err e
  | ok n ↦ ok (h, n)
]

-- One round of the loop, for the entry with the number `count`: the header that is written, and the
-- bytes so far. `writes` tells whether `WriteHeader` succeeds.
unfoldable pub append_entry : (Header → Bool) → ℕ → ℕ → Header → Option ℕ → Result (Header × ℕ)
append_entry writes count bytes h body =
    if ltb max_template_archive_entries count
    then err (plain "uploaded template file archive contains too many entries")
    else written bytes body writes (copied_header h)

abbrev pub with_header : Header → Result (List Header) → Result (List Header)
with_header h (err e) = err e
with_header h (ok hs) = ok (h ∷ hs)

-- The headers that are written, if nothing fails.
unfoldable pub append_entries : (Header → Bool) → ℕ → ℕ → TarReader → Result (List Header)
append_entries writes count bytes eof = ok []
append_entries writes count bytes broken = err (plain "read uploaded template file archive")
append_entries writes count bytes (entry h body rest) =
    elim (append_entry writes (count + 1) bytes h body) [
      | err e ↦ err e
      | ok (copied, total) ↦ with_header copied (append_entries writes (count + 1) total rest)
    ]

unfoldable pub append_template_file_to_docker_build_context :
    (Header → Bool) → Option TarReader → Result (List Header)
append_template_file_to_docker_build_context writes none =
    err (plain "open uploaded template file archive")
append_template_file_to_docker_build_context writes (some reader) = append_entries writes 0 0 reader

-- ===== src/Tests/Archives.antt =====
-- The theorems on uploaded archives, at one archive.
use Prim.Native.String.{◌++◌ as text_append}
use e2b_local.Prelude.{
  text_length, equal_fold, String, ◌≡◌, refl, true, false, Option, none, some, ◌&&◌, leb,
  trim_space, ◌<◌, ◌≤◌, if◌then◌else◌, All,
}
use e2b_local.Prelude.Int.{pos}
use e2b_local.Prelude.Paths.{slashed, split_slash, IsPlain, clean, is_rooted}
use e2b_local.Errors.{Result, ok}
use e2b_local.Management.Uploads.{Written}
use e2b_local.Archive.{
  is_hex, TarReader, eof, entry, whole, safe_template_build_context_tar_name, is_refused,
  validate_template_archive, received_body, validate_template_upload_hash,
  max_template_archive_entries, max_template_archive_uncompressed_bytes,
  max_template_file_upload_bytes, write_template_upload_temp,
}
use e2b_local.Archive.Paths.{named_parts, joined, safe_name-parts, safe_name-IsPlain}
use e2b_local.Archive.Laws.{
  all_sound, entry_count, total_size, is_accepted, IsExact, validate_template_archive_lem,
}
use e2b_local.Archive.Received.{received_body_lem}

accepted_name : safe_template_build_context_tar_name " ./src\\app//main.py" ≡ some "src/app/main.py"
unfolding safe_template_build_context_tar_name slashed split_slash clean is_rooted trim_space
accepted_name = refl

refused_name : safe_template_build_context_tar_name "src/../../etc/passwd" ≡ none
unfolding safe_template_build_context_tar_name slashed split_slash clean is_rooted trim_space
refused_name = refl

safe_name-IsPlain_example :
    (split_slash "src/app/main.py" ≡ named_parts (slashed (trim_space " ./src\\app//main.py")))
    × All IsPlain (split_slash "src/app/main.py")
safe_name-IsPlain_example = safe_name-IsPlain " ./src\\app//main.py" "src/app/main.py" accepted_name

safe_name-parts_example : safe_template_build_context_tar_name "./a//b" ≡ (
    if is_refused (slashed (trim_space "./a//b"))
    then none
    else joined (named_parts (slashed (trim_space "./a//b"))))
safe_name-parts_example = safe_name-parts "./a//b"

-- A directory, and a file in it.
abbrev archive : TarReader
archive =
    entry (record { name = "src/"; linkname = ""; regular = false; size = pos 0 }) none
      (entry (record { name = "src/a"; linkname = ""; regular = true; size = pos 7 }) (some 7) eof)

archive-IsExact : IsExact archive
archive-IsExact = (λ h. absurd (cc h), (λ h. refl, tt))

validate_template_archive_lem_example : is_accepted (validate_template_archive (some archive)) ≡ (
    all_sound archive
    && leb (entry_count archive) max_template_archive_entries
    && leb (total_size archive) max_template_archive_uncompressed_bytes)
validate_template_archive_lem_example = validate_template_archive_lem archive archive-IsExact

abbrev opened : Result (Option TarReader)
opened = ok (some archive)

abbrev digest : String
digest = "ab12ab12ab12ab12ab12ab12ab12ab12ab12ab12ab12ab12ab12ab12ab12ab12"

abbrev written : Written
written = record { path = "/tmp/u"; size = 20; sha256 = digest }

received :
    received_body (some "/tmp/u") true (whole 20 digest) (text_append "sha256:" digest) opened
    ≡ ok written
unfolding received_body write_template_upload_temp validate_template_upload_hash
    validate_template_archive safe_template_build_context_tar_name
received = refl

received_body_lem_example :
    (0 < written.size)
    × (written.size ≤ max_template_file_upload_bytes)
    × ((d : String)
        → trim_space (trim_space (text_append "sha256:" digest)) ≡ text_append "sha256:" d
        → text_length d ≡ 64
        → is_hex d ≡ true
        → equal_fold d written.sha256 ≡ true)
    × ((reader : Option TarReader) × (opened ≡ ok reader)
        × (validate_template_archive reader ≡ none))
received_body_lem_example =
    received_body_lem (some "/tmp/u") true (whole 20 digest) (text_append "sha256:" digest) opened
      written received

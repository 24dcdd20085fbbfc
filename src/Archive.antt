-- ===== src/Archive.antt =====
-- internal/gateway/template_files.go: the files that a template build copies. Each is uploaded as a
-- gzipped tar archive. Its bytes are counted and digested, the digest is compared with the one that
-- was announced, and every entry of the archive is checked, before the file is kept. The readers of
-- Go's standard library give the entries of an archive and the length and the digest of a body.
pub mod Paths
pub mod Laws
pub mod Received
use Prim.Native.Char.{Char, code}
use Prim.Native.String.{[] as nil, ◌∷◌ as cons}
use e2b_local.Prelude.{
  ℕ, ◌+◌, ◌-◌, ◌*◌, min, String, Bool, true, false, not, ◌&&◌, ◌||◌, Option, none, some, leb, ltb,
  nat_beq, if◌then◌else◌, ◌==◌, string_eq, trim_space, lower, equal_fold, cut_prefix, has_prefix,
  text_length,
}
use e2b_local.Prelude.Int.{ℤ, pos, negsuc}
use e2b_local.Prelude.Paths.{slashed, is_rooted, split_slash, has_up, clean}
use e2b_local.Errors.{Error, gateway, Result, ok, err, bad_request, plain}
use e2b_local.Types.{Time}
use e2b_local.Management.Uploads.{
  Written, FileStore, UploadResult, store_template_file_upload_reader,
}

abbrev pub max_template_file_upload_bytes : ℕ
max_template_file_upload_bytes = 512 * 1024 * 1024

abbrev pub max_template_archive_entries : ℕ
max_template_archive_entries = 10000

abbrev pub max_template_archive_uncompressed_bytes : ℕ
max_template_archive_uncompressed_bytes = 512 * 1024 * 1024

abbrev pub too_large : Error
too_large = gateway 413

-- The tests before the name is cleaned.
abbrev pub is_refused : String → Bool
is_refused name = (name == "") || is_rooted name || has_up (split_slash name)

-- The tests on the clean name.
abbrev pub leads_out : String → Bool
leads_out name = (name == "") || (name == ".") || (name == "..") || has_prefix "../" name

unfoldable pub safe_template_build_context_tar_name : String → Option String
unfolding slashed split_slash is_rooted clean cut_prefix trim_space
safe_template_build_context_tar_name given =
    let name = slashed (trim_space given) in
    if is_refused name then none else if leads_out (clean name) then none else some (clean name)

-- What the validation reads of a header; `regular` is the test for the two types of a file.
pub record Header : Type 0 where
  pub name : String
  pub linkname : String
  pub regular : Bool
  pub size : ℤ

-- What a `tar.Reader` gives: its end, an error, or an entry, with the number of bytes that copying its
-- data gives, if that does not fail.
pub data TarReader : Type 0 where
  eof : TarReader
  broken : TarReader
  entry : Header → Option ℕ → TarReader → TarReader

abbrev pub is_safe : String → Bool
is_safe name = elim (safe_template_build_context_tar_name name) [ none ↦ false | some _ ↦ true ]

-- The bytes that are left for a regular entry, and its data.
abbrev pub add_data : ℕ → ℤ → Option ℕ → Result ℕ
add_data bytes (negsuc n) copied = err bad_request
add_data bytes (pos size) copied =
    if ltb (max_template_archive_uncompressed_bytes - bytes) size
    then err too_large
    else elim copied [
      | none ↦ err bad_request
      | some n ↦
          if ltb max_template_archive_uncompressed_bytes (bytes + n)
          then err too_large
          else ok (bytes + n)
    ]

-- One round of the loop, for the entry with the number `count`: the bytes so far, with the entry's.
unfoldable pub check_entry : ℕ → ℕ → Header → Option ℕ → Result ℕ
check_entry count bytes h copied =
    if ltb max_template_archive_entries count
    then err too_large
    else if not (is_safe h.name)
    then err bad_request
    else if not (h.linkname == "") && not (is_safe h.linkname)
    then err bad_request
    else if not h.regular
    then ok bytes
    else add_data bytes h.size copied

unfoldable pub validate_entries : ℕ → ℕ → TarReader → Option Error
unfolding check_entry
validate_entries count bytes eof = none
validate_entries count bytes broken = some bad_request
validate_entries count bytes (entry h copied rest) = elim (check_entry (count + 1) bytes h copied) [
  | err e ↦ some e
  | ok total ↦ validate_entries (count + 1) total rest
]

-- `gzip.NewReader` may fail.
unfoldable pub validate_template_archive : Option TarReader → Option Error
unfolding validate_entries
validate_template_archive none = some bad_request
validate_template_archive (some reader) = validate_entries 0 0 reader

-- What `io.Copy` makes of a body: its length with the digest of what was read, or an error.
pub data Body : Type 0 where
  whole : ℕ → String → Body
  max_bytes_error : Body
  copy_failed : Error → Body

-- The file is closed, which may fail.
abbrev pub close_temp : String → Bool → ℕ → String → Result Written
close_temp path closes written digest =
    if ltb max_template_file_upload_bytes written
    then err too_large
    else if nat_beq written 0
    then err bad_request
    else if closes
    then ok (record { path = path; size = written; sha256 = digest })
    else err (plain "close template upload temp file")

-- `io.LimitReader` reads one byte more than the limit, at most.
unfoldable pub write_template_upload_temp : Option String → Bool → Body → Result Written
write_template_upload_temp none closes body = err (plain "create template upload temp file")
write_template_upload_temp (some path) closes (whole n digest) =
    close_temp path closes (min n (max_template_file_upload_bytes + 1)) digest
write_template_upload_temp (some path) closes max_bytes_error = err too_large
write_template_upload_temp (some path) closes (copy_failed e) = err e

abbrev is_hex_digit : ℕ → Bool
is_hex_digit n = (leb 48 n && leb n 57) || (leb 97 n && leb n 102)

unfoldable pub is_hex : String → Bool
is_hex nil = true
is_hex (cons c s) = let rest = is_hex s in is_hex_digit (lower (code c)) && rest

-- `strings.TrimPrefix` of the text in small letters.
unfoldable pub trim_prefix_fold : String → String → Option String
trim_prefix_fold nil s = some s
trim_prefix_fold (cons c p) nil = none
trim_prefix_fold (cons c p) (cons d s) =
    let rest = trim_prefix_fold p s in if nat_beq (code c) (lower (code d)) then rest else none

abbrev or_whole : String → Option String → String
or_whole s none = s
or_whole s (some rest) = rest

-- The digest that a hash announces. Its letters stay as they are: only `equal_fold` reads them.
unfoldable pub expected_template_upload_sha256 : String → Option String
unfolding trim_prefix_fold is_hex text_length trim_space
expected_template_upload_sha256 hash =
    let text = trim_space hash in
    let digest = or_whole text (trim_prefix_fold "sha256:" text) in
    if nat_beq (text_length digest) 64 && is_hex digest then some digest else none

unfoldable pub validate_template_upload_hash : String → String → Option Error
unfolding expected_template_upload_sha256 equal_fold
validate_template_upload_hash hash actual = elim (expected_template_upload_sha256 hash) [
  | none ↦ none
  | some expected ↦ if equal_fold expected actual then none else some bad_request
]

abbrev pub or_failed : Option Error → Written → Result Written
or_failed none w = ok w
or_failed (some e) w = err e

-- The archive is opened again, which may fail.
abbrev pub with_archive : Option Error → Result (Option TarReader) → Written → Result Written
with_archive (some e) opened w = err e
with_archive none (err e) w = err e
with_archive none (ok archive) w = or_failed (validate_template_archive archive) w

abbrev pub checked_body : Result Written → String → Result (Option TarReader) → Result Written
checked_body (err e) hash opened = err e
checked_body (ok w) hash opened =
    with_archive (validate_template_upload_hash hash w.sha256) opened w

-- The part of `StoreTemplateFileUploadReader` between the two critical sections: the body is written,
-- its digest is compared, and the archive is checked.
unfoldable pub received_body :
    Option String → Bool → Body → String → Result (Option TarReader) → Result Written
received_body temp closes body hash opened =
    checked_body (write_template_upload_temp temp closes body) (trim_space hash) opened

-- `StoreTemplateFileUploadReader` as a whole.
unfoldable pub store_uploaded_file :
    String
    → String
    → String
    → Time
    → Time
    → Option String
    → Bool
    → Body
    → Result (Option TarReader)
    → FileStore
    → UploadResult × FileStore
unfolding received_body store_template_file_upload_reader
store_uploaded_file template_id hash token now later temp closes body opened s =
    store_template_file_upload_reader template_id hash token now later
      (received_body temp closes body hash opened) s

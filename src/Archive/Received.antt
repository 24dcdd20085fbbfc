-- ===== src/Archive/Received.antt =====
-- What is known of a body that was received, between the two critical sections of
-- `StoreTemplateFileUploadReader` (internal/gateway/template_files.go, management_store.go).
use Prim.Native.Char.{code}
use Prim.Native.String.{[], ◌∷◌, ◌++◌ as text_append}
use text.Mathlib.TextLemmas.{nil-append, cons-append}
use mathlib.Core.Path.{subst, ap}
use e2b_local.Prelude.{
  ℕ, ◌<◌, ◌≤◌, String, ◌≡◌, refl, Bool, Option, none, some, arith, inl, inr, Option-cases, min, ◌+◌,
  trim_space, true, Bool-cases, equal_fold, text_length, lower, nat_beq, if◌then◌else◌, false,
}
use e2b_local.Errors.{Error, Result, ok, err}
use e2b_local.Management.Uploads.{Written}
use e2b_local.Archive.{
  is_hex, trim_prefix_fold, expected_template_upload_sha256, TarReader, Body, close_temp,
  with_archive, checked_body, whole, max_bytes_error, copy_failed, write_template_upload_temp,
  validate_template_upload_hash, validate_template_archive, received_body,
  max_template_file_upload_bytes,
}

close_temp-size :
    (path : String) (closes : Bool) (n : ℕ) (digest : String) (w : Written)
    → close_temp path closes n digest ≡ ok w
    → (0 < w.size) × (w.size ≤ max_template_file_upload_bytes)
close_temp-size path closes n digest w h = ground arith

written-size :
    (temp : Option String) (closes : Bool) (body : Body) (w : Written)
    → write_template_upload_temp temp closes body ≡ ok w
    → (0 < w.size) × (w.size ≤ max_template_file_upload_bytes)
unfolding write_template_upload_temp
written-size none closes body w h = absurd (cc h)
written-size (some path) closes (whole n digest) w h =
    close_temp-size path closes (min n (max_template_file_upload_bytes + 1)) digest w h
written-size (some path) closes max_bytes_error w h = absurd (cc h)
written-size (some path) closes (copy_failed e) w h = absurd (cc h)

with_archive-ok :
    (digest : Option Error) (opened : Result (Option TarReader)) (v w : Written)
    → with_archive digest opened v ≡ ok w
    → (v ≡ w)
      × (digest ≡ none)
      × ((archive : Option TarReader) × (opened ≡ ok archive)
          × (validate_template_archive archive ≡ none))
with_archive-ok (some e) opened v w h = absurd (cc h)
with_archive-ok none (err e) v w h = absurd (cc h)
with_archive-ok none (ok archive) v w h = elim (Option-cases (validate_template_archive archive)) [
  | inl e ↦ (cc (rw e at h), refl, (archive, refl, e))
  | inr (x, e) ↦ absurd (cc (rw e at h))
]

checked_body-ok :
    (r : Result Written) (hash : String) (opened : Result (Option TarReader)) (w : Written)
    → checked_body r hash opened ≡ ok w
    → (r ≡ ok w)
      × (validate_template_upload_hash hash w.sha256 ≡ none)
      × ((archive : Option TarReader) × (opened ≡ ok archive)
          × (validate_template_archive archive ≡ none))
checked_body-ok (err e) hash opened w h = absurd (cc h)
checked_body-ok (ok v) hash opened w h =
    let (same, digest, archive) =
      with_archive-ok (validate_template_upload_hash hash v.sha256) opened v w h in
    (
      ap (λ u. ok u) same,
      subst (λ u. validate_template_upload_hash hash u.sha256 ≡ none) same digest,
      archive,
    )

hash-announced :
    (hash actual d : String)
    → validate_template_upload_hash hash actual ≡ none
    → expected_template_upload_sha256 hash ≡ some d
    → equal_fold d actual ≡ true
unfolding validate_template_upload_hash
hash-announced hash actual d h announced = ground (arith, h, announced)

abbrev is_small : String → Bool
is_small [] = true
is_small (c ∷ p) =
    let rest = is_small p in if nat_beq (code c) (lower (code c)) then rest else false

trim_prefix-append :
    (p d : String) → is_small p ≡ true → trim_prefix_fold p (text_append p d) ≡ some d
unfolding trim_prefix_fold
trim_prefix-append [] d h = rw nil-append refl
trim_prefix-append (c ∷ p) d h = elim (Bool-cases (nat_beq (code c) (lower (code c)))) [
  | inl e ↦ rw (cons-append, e) (trim_prefix-append p d (rw e at h))
  | inr e ↦ absurd (cc (rw e at h))
]

-- A hash that is `sha256:` and 64 digits announces these digits.
prefixed-announced :
    (hash d : String)
    → trim_space hash ≡ text_append "sha256:" d
    → text_length d ≡ 64
    → is_hex d ≡ true
    → expected_template_upload_sha256 hash ≡ some d
unfolding expected_template_upload_sha256
prefixed-announced hash d h long hex = rw (h, trim_prefix-append "sha256:" d refl, long, hex) refl

-- A body that is received is not empty and has 512 MB at most; where the hash, without the spaces
-- around it, is `sha256:` and 64 hexadecimal digits, these are the digest of the body, up to the
-- letters' case; and the body's archive can be opened and is accepted.
pub received_body_lem :
    (temp : Option String) (closes : Bool) (body : Body) (hash : String)
    (opened : Result (Option TarReader)) (w : Written)
    → received_body temp closes body hash opened ≡ ok w
    → (0 < w.size)
      × (w.size ≤ max_template_file_upload_bytes)
      × ((d : String)
          → trim_space (trim_space hash) ≡ text_append "sha256:" d
          → text_length d ≡ 64
          → is_hex d ≡ true
          → equal_fold d w.sha256 ≡ true)
      × ((archive : Option TarReader) × (opened ≡ ok archive)
          × (validate_template_archive archive ≡ none))
unfolding received_body
received_body_lem temp closes body hash opened w h =
    let (written, digest, archive) =
      checked_body-ok (write_template_upload_temp temp closes body) (trim_space hash) opened w h in
    let (least, most) = written-size temp closes body w written in
    (
      least,
      most,
      λ d same long hex.
          hash-announced (trim_space hash) w.sha256 d digest
            (prefixed-announced (trim_space hash) d same long hex),
      archive,
    )

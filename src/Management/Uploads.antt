-- ===== src/Management/Uploads.antt =====
-- internal/gateway/management_store.go: the uploads of the files that a template build copies. A
-- token permits one upload. The body is written and validated between two critical sections, so the
-- token is looked up in both.
pub mod History
pub mod Laws
use Prim.Native.String.{◌++◌ as text_append}
use e2b_local.Prelude.{
  ℕ, ◌+◌, ◌*◌, String, Bool, true, false, not, ◌&&◌, ◌||◌, Option, none, some, leb, ltb, List, [],
  if◌then◌else◌, ◌==◌, string_eq, trim_space, equal_fold,
}
use e2b_local.Prelude.Dict.{Dict, lookup, insert, delete}
use e2b_local.Errors.{Error, Result, ok, err, conflict, plain}
use e2b_local.Types.{Time, second}

pub record ManagedTemplateFile : Type 0 where
  pub template_id : String
  pub hash : String
  pub path : String
  pub size : ℕ
  pub sha256 : String
  pub created_at : Time

pub record ManagedTemplateFileUpload : Type 0 where
  pub template_id : String
  pub hash : String
  pub token : String
  pub expires_at : Time

pub record FileStore : Type 0 where
  pub template_files : Dict String ManagedTemplateFile
  pub template_uploads : Dict String ManagedTemplateFileUpload

-- What was written to the temporary file.
pub record Written : Type 0 where
  pub path : String
  pub size : ℕ
  pub sha256 : String

-- The two results of the source, and whether the temporary file stays.
pub record UploadResult : Type 0 where
  pub present : Bool
  pub failure : Option Error
  pub kept : Bool

abbrev pub refused : UploadResult
refused = record { present = false; failure = none; kept = false }

abbrev pub failed : Error → UploadResult
failed e = record { present = true; failure = some e; kept = false }

abbrev pub stored : Bool → UploadResult
stored kept = record { present = true; failure = none; kept = kept }

unfoldable pub template_file_key : String → String → String
template_file_key template_id hash =
    text_append (trim_space template_id) (text_append "/" (trim_space hash))

unfoldable pub template_file_present : String → String → FileStore → Bool
template_file_present template_id hash s =
    elim (lookup (template_file_key template_id hash) s.template_files) [
      | none ↦ false
      | some _ ↦ true
    ]

unfoldable pub template_file : String → String → FileStore → Option ManagedTemplateFile
template_file template_id hash s = lookup (template_file_key template_id hash) s.template_files

abbrev pub upload_lifetime : Time
upload_lifetime = 15 * 60 * second

-- `newManagementSecret` may fail.
unfoldable pub create_template_file_upload :
    Option String → Time → String → String → FileStore → Result String × FileStore
create_template_file_upload none now template_id hash s = (err (plain "read random bytes"), s)
create_template_file_upload (some token) now template_id hash s = (
  ok token,
  record s {
    template_uploads =
        insert token
          (record {
            template_id = trim_space template_id;
            hash = trim_space hash;
            token = token;
            expires_at = now + upload_lifetime;
          })
          s.template_uploads;
  },
)

-- The upload that a token permits: it is there, has not expired, and is for this file.
abbrev pub permits : String → String → Time → ManagedTemplateFileUpload → Bool
permits template_id hash now u =
    leb now u.expires_at && (u.template_id == template_id) && (u.hash == hash)

abbrev pub forget_expired : Time → Option ManagedTemplateFileUpload → FileStore → FileStore
forget_expired now none s = s
forget_expired now (some u) s =
    if ltb u.expires_at now
    then record s { template_uploads = delete u.token s.template_uploads }
    else s

abbrev pub permitted :
    String → String → Time → Option ManagedTemplateFileUpload → Option ManagedTemplateFileUpload
permitted template_id hash now none = none
permitted template_id hash now (some u) = if permits template_id hash now u then some u else none

-- The first critical section, and the start of the second.
unfoldable pub find_upload :
    String → String → String → Time → FileStore → Option ManagedTemplateFileUpload × FileStore
find_upload template_id hash token now s =
    let u = lookup token s.template_uploads in
    (permitted template_id hash now u, forget_expired now u s)

abbrev pub forget_token : ManagedTemplateFileUpload → FileStore → FileStore
forget_token u s = record s { template_uploads = delete u.token s.template_uploads }

abbrev pub new_file : String → String → Time → Written → ManagedTemplateFile
new_file template_id hash now w = record {
  template_id = template_id;
  hash = hash;
  path = w.path;
  size = w.size;
  sha256 = w.sha256;
  created_at = now;
}

-- A file that is there already is kept: an equal one uses up the token, another one is a conflict.
abbrev pub put_file :
    String
    → String
    → Time
    → Written
    → ManagedTemplateFileUpload
    → Option ManagedTemplateFile
    → FileStore
    → UploadResult × FileStore
put_file template_id hash now w u (some previous) s =
    if equal_fold previous.sha256 w.sha256
    then (stored false, forget_token u s)
    else (failed conflict, s)
put_file template_id hash now w u none s = (
  stored true,
  record s {
    template_files =
        insert (template_file_key template_id hash) (new_file template_id hash now w)
          s.template_files;
    template_uploads = delete u.token s.template_uploads;
  },
)

abbrev pub commit_found :
    String
    → String
    → Time
    → Written
    → Option ManagedTemplateFileUpload
    → FileStore
    → UploadResult × FileStore
commit_found template_id hash now w none s = (refused, s)
commit_found template_id hash now w (some u) s =
    put_file template_id hash now w u (lookup (template_file_key template_id hash) s.template_files)
      s

-- The second critical section, with the arguments trimmed.
unfoldable pub commit_upload :
    String → String → String → Time → Written → FileStore → UploadResult × FileStore
unfolding find_upload template_file_key
commit_upload template_id hash token now w s =
    let (u, s') = find_upload template_id hash token now s in
    commit_found template_id hash now w u s'

abbrev pub upload_body :
    String
    → String
    → String
    → Time
    → Result Written
    → Option ManagedTemplateFileUpload
    → FileStore
    → UploadResult × FileStore
upload_body template_id hash token now body none s = (refused, s)
upload_body template_id hash token now (err e) (some u) s = (failed e, s)
upload_body template_id hash token now (ok w) (some u) s =
    commit_upload template_id hash token now w s

-- `StoreTemplateFileUploadReader`, where nobody else uses the store in between: `body` is what writing
-- the body to a file and validating its digest and its archive gave (`received_body` of Archive), and
-- the clock is read twice.
unfoldable pub store_template_file_upload_reader :
    String → String → String → Time → Time → Result Written → FileStore → UploadResult × FileStore
unfolding find_upload commit_upload
store_template_file_upload_reader template_id hash token now later body s =
    let t = trim_space template_id in
    let h = trim_space hash in
    let k = trim_space token in
    let (u, s') = find_upload t h k now s in upload_body t h k later body u s'

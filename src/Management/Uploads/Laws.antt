-- ===== src/Management/Uploads/Laws.antt =====
-- A token permits one upload, and a stored file is never replaced.
use mathlib.Core.Path.{subst, sym, ◌∙◌}
use mathlib.Core.Logic.{◌⊎◌}
use text.Mathlib.TextEquality.{eq_iff}
use e2b_local.Prelude.{
  ◌+◌, String, ◌≡◌, refl, Bool, false, Option, none, some, arith, ltb, ◌==◌, string_eq, trim_space,
  Bool-cases, inl, inr, ==-refl, ==→eq,
}
use e2b_local.Prelude.Dict.{Dict, lookup, delete, lookup-insert, lookup-delete}
use e2b_local.Errors.{Result, ok, err}
use e2b_local.Types.{Time}
use e2b_local.Management.Uploads.{
  FileStore, ManagedTemplateFile, ManagedTemplateFileUpload, Written, stored, find_upload,
  commit_upload, store_template_file_upload_reader, permitted, permits, equal_fold,
  template_file_key, new_file, put_file, commit_found, forget_expired, upload_body, forget_token,
  upload_lifetime, create_template_file_upload,
}

-- The store has gone on: no token came back, and every stored file is as it was.
pub record IsLater (s n : FileStore) : Type 0 where
  pub files :
      (key : String) (f : ManagedTemplateFile)
      → lookup key s.template_files ≡ some f
      → lookup key n.template_files ≡ some f
  pub uploads :
      (k : String)
      → (lookup k n.template_uploads ≡ lookup k s.template_uploads)
        ⊎ (lookup k n.template_uploads ≡ none)

IsLater-refl : (s : FileStore) → IsLater s s
IsLater-refl s = record { files = λ key f h. h; uploads = λ k. inl refl }

IsLater-trans : (s n p : FileStore) → IsLater s n → IsLater n p → IsLater s p
IsLater-trans s n p a b = record {
  files = λ key f h. b.files key f (a.files key f h);
  uploads = λ k. elim (b.uploads k) [
    | inr gone ↦ inr gone
    | inl same ↦ elim (a.uploads k) [ inl e ↦ inl (same ∙ e) | inr e ↦ inr (same ∙ e) ]
  ];
}

deleted_upload :
    (token k : String) (m : Dict String ManagedTemplateFileUpload)
    → (lookup k (delete token m) ≡ lookup k m) ⊎ (lookup k (delete token m) ≡ none)
deleted_upload token k m = elim (Bool-cases (token == k)) [
  | inl e ↦ inr (rw (lookup-delete token k m, e))
  | inr e ↦ inl (rw (lookup-delete token k m, e))
]

IsLater-forget : (u : ManagedTemplateFileUpload) (s : FileStore) → IsLater s (forget_token u s)
IsLater-forget u s = record {
  files = λ key f h. h;
  uploads = λ k. deleted_upload u.token k s.template_uploads;
}

IsLater-expired :
    (now : Time) (o : Option ManagedTemplateFileUpload) (s : FileStore)
    → IsLater s (forget_expired now o s)
IsLater-expired now none s = IsLater-refl s
IsLater-expired now (some u) s = elim (Bool-cases (ltb u.expires_at now)) [
  | inl e ↦ rw e (IsLater-forget u s)
  | inr e ↦ rw e (IsLater-refl s)
]

module _ (template_id hash : String) (now : Time) (w : Written) where
  abbrev key : String
  key = template_file_key template_id hash

  put_file-IsLater :
      (u : ManagedTemplateFileUpload) (o : Option ManagedTemplateFile) (s : FileStore)
      → lookup key s.template_files ≡ o
      → IsLater s (put_file template_id hash now w u o s).1
  put_file-IsLater u (some previous) s there =
      elim (Bool-cases (equal_fold previous.sha256 w.sha256)) [
        | inl e ↦ rw e (IsLater-forget u s)
        | inr e ↦ rw e (IsLater-refl s)
      ]
  put_file-IsLater u none s fresh = record {
    files = λ k f h.
        let other : (key == k) ≡ false = ground (arith, fresh, h, eq_iff key k) in
        rw (lookup-insert key k (new_file template_id hash now w) s.template_files, other) h;
    uploads = λ k. deleted_upload u.token k s.template_uploads;
  }

  commit_found-IsLater :
      (o : Option ManagedTemplateFileUpload) (s : FileStore)
      → IsLater s (commit_found template_id hash now w o s).1
  commit_found-IsLater none s = IsLater-refl s
  commit_found-IsLater (some u) s = put_file-IsLater u (lookup key s.template_files) s refl

  -- A commit that ends well uses up the token that it was given.
  put_file-uses :
      (u : ManagedTemplateFileUpload) (o : Option ManagedTemplateFile) (s : FileStore) (kept : Bool)
      → (put_file template_id hash now w u o s).0 ≡ stored kept
      → lookup u.token (put_file template_id hash now w u o s).1.template_uploads ≡ none
  put_file-uses u none s kept h =
      rw (lookup-delete u.token u.token s.template_uploads, ==-refl u.token) refl
  put_file-uses u (some previous) s kept h =
      elim (Bool-cases (equal_fold previous.sha256 w.sha256)) [
        | inl e ↦ rw (e, lookup-delete u.token u.token s.template_uploads, ==-refl u.token) refl
        | inr e ↦ absurd (cc (rw e at h))
      ]

-- Each upload stands under its own token.
pub record IsKeyed (s : FileStore) : Type 0 where
  pub at :
      (k : String) (u : ManagedTemplateFileUpload)
      → lookup k s.template_uploads ≡ some u
      → u.token ≡ k

pub IsLater-IsKeyed : (s n : FileStore) → IsLater s n → IsKeyed s → IsKeyed n
IsLater-IsKeyed s n later keyed = record {
  at = λ k u h. elim (later.uploads k) [
    | inl same ↦ keyed.at k u (sym same ∙ h)
    | inr gone ↦ absurd (cc (gone, h))
  ];
}

-- A new upload stands under its token, too.
pub create-IsKeyed :
    (secret : Option String) (now : Time) (template_id hash : String) (s : FileStore)
    → IsKeyed s
    → IsKeyed (create_template_file_upload secret now template_id hash s).1
unfolding create_template_file_upload
create-IsKeyed none now template_id hash s keyed = keyed
create-IsKeyed (some token) now template_id hash s keyed = record {
  at = λ k u h. elim (Bool-cases (token == k)) [
    | inl e ↦
        ground
          (arith, rw (lookup-insert token k (made) s.template_uploads, e) at h, ==→eq token k e)
    | inr e ↦ keyed.at k u (rw (lookup-insert token k (made) s.template_uploads, e) at h)
  ];
}
  where
    made : ManagedTemplateFileUpload
    made = record {
      template_id = trim_space template_id;
      hash = trim_space hash;
      token = token;
      expires_at = now + upload_lifetime;
    }

permitted-found :
    (template_id hash : String) (now : Time) (o : Option ManagedTemplateFileUpload)
    (u : ManagedTemplateFileUpload)
    → permitted template_id hash now o ≡ some u
    → o ≡ some u
permitted-found template_id hash now none u h = absurd cc
permitted-found template_id hash now (some v) u h =
    elim (Bool-cases (permits template_id hash now v)) [
      | inl e ↦ rw e at h
      | inr e ↦ absurd (cc (rw e at h))
    ]

module _ (template_id hash token : String) (now : Time) where
  pub find-IsLater : (s : FileStore) → IsLater s (find_upload template_id hash token now s).1
  unfolding find_upload
  find-IsLater s = IsLater-expired now (lookup token s.template_uploads) s

  pub commit-IsLater :
      (w : Written) (s : FileStore) → IsLater s (commit_upload template_id hash token now w s).1
  unfolding commit_upload
  commit-IsLater w s = IsLater-trans s _ _ (find-IsLater s) (
      commit_found-IsLater template_id hash now w (find_upload template_id hash token now s).0
        (find_upload template_id hash token now s).1)

  commit_found-uses :
      (w : Written) (o : Option ManagedTemplateFileUpload) (s : FileStore) (kept : Bool)
      → ((u : ManagedTemplateFileUpload) → o ≡ some u → u.token ≡ token)
      → (commit_found template_id hash now w o s).0 ≡ stored kept
      → lookup token (commit_found template_id hash now w o s).1.template_uploads ≡ none
  commit_found-uses w none s kept own h = absurd (cc h)
  commit_found-uses w (some u) s kept own h =
      subst
        (λ k. lookup k (commit_found template_id hash now w (some u) s).1.template_uploads ≡ none)
        (own u refl)
        (put_file-uses template_id hash now w u
          (lookup (template_file_key template_id hash) s.template_files) s kept h)

  pub commit-uses :
      (w : Written) (s : FileStore) (kept : Bool)
      → IsKeyed s
      → (commit_upload template_id hash token now w s).0 ≡ stored kept
      → lookup token (commit_upload template_id hash token now w s).1.template_uploads ≡ none
  unfolding commit_upload find_upload
  commit-uses w s kept keyed h =
      commit_found-uses w (permitted template_id hash now (lookup token s.template_uploads)) _ kept
        (λ u e.
          keyed.at token u
            (permitted-found template_id hash now (lookup token s.template_uploads) u e))
        h

module _ (template_id hash token : String) (now later : Time) where
  abbrev own_token : String
  own_token = trim_space token

  body-IsLater :
      (body : Result Written) (o : Option ManagedTemplateFileUpload) (s : FileStore)
      → IsLater s
          (upload_body (trim_space template_id) (trim_space hash) own_token later body o s).1
  body-IsLater body none s = IsLater-refl s
  body-IsLater (err e) (some u) s = IsLater-refl s
  body-IsLater (ok w) (some u) s =
      commit-IsLater (trim_space template_id) (trim_space hash) own_token later w s

  -- Whatever an upload does, and however it ends, it leaves every stored file as it was, and no token
  -- that was used up or unknown becomes valid.
  pub store_upload-IsLater :
      (body : Result Written) (s : FileStore)
      → IsLater s (store_template_file_upload_reader template_id hash token now later body s).1
  unfolding store_template_file_upload_reader
  store_upload-IsLater body s =
      let (o, n) = find_upload (trim_space template_id) (trim_space hash) own_token now s in
      IsLater-trans s n _ (find-IsLater (trim_space template_id) (trim_space hash) own_token now s)
        (body-IsLater body o n)

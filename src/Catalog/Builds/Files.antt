-- ===== src/Catalog/Builds/Files.antt =====
-- The uploaded files that a build copies (`templateBuildFiles` of
-- internal/gateway/gateway_callbacks.go).
use mathlib.Core.Path.{subst}
use text.Mathlib.TextEquality.{eq_iff}
use e2b_local.Prelude.{
  String, ◌≡◌, ◌≢◌, refl, true, Option, none, some, List, [], ◌∷◌, arith, inl, inr, Bool-cases,
  ◌==◌, string_eq, All, ==→eq,
}
use e2b_local.Prelude.Texts.{among}
use e2b_local.Errors.{Result, ok, err}
use e2b_local.Management.Uploads.{FileStore, ManagedTemplateFile, template_file}
use e2b_local.Catalog.Builds.{
  TemplateStep, is_copy, hash_of, copied_files, template_build_files, add_file,
}

-- The file of a step was uploaded for the template.
abbrev pub IsUploaded : FileStore → String → String → Type 0
IsUploaded s template_id hash =
    (hash ≢ "") × ((file : ManagedTemplateFile) × (template_file template_id hash s ≡ some file))

abbrev pub HasFile : FileStore → String → TemplateStep → Type 0
HasFile s template_id step =
    is_copy step ≡ true → IsUploaded s template_id (hash_of step.files_hash)

add_file-ok :
    (o : Option ManagedTemplateFile) (r : Result (List ManagedTemplateFile))
    (files : List ManagedTemplateFile)
    → add_file o r ≡ ok files
    → ((file : ManagedTemplateFile) × (o ≡ some file))
      × ((rest : List ManagedTemplateFile) × (r ≡ ok rest))
add_file-ok none r files h = absurd (cc h)
add_file-ok (some file) (err e) files h = absurd (cc h)
add_file-ok (some file) (ok rest) files h = ((file, refl), (rest, refl))

module _ (s : FileStore) (template_id : String) where
  also :
      (hash : String) (seen : List String)
      → IsUploaded s template_id hash
      → ((j : String) → among j seen ≡ true → IsUploaded s template_id j)
      → (j : String) → among j (hash ∷ seen) ≡ true
      → IsUploaded s template_id j
  also hash seen up known j m = elim (Bool-cases (hash == j)) [
    | inl e ↦ subst (λ k. IsUploaded s template_id k) (==→eq hash j e) up
    | inr e ↦ known j (rw e at m)
  ]

  copied_files-HasFile :
      (seen : List String) (steps : List TemplateStep) (files : List ManagedTemplateFile)
      → ((hash : String) → among hash seen ≡ true → IsUploaded s template_id hash)
      → copied_files s template_id seen steps ≡ ok files
      → All (HasFile s template_id) steps
  unfolding copied_files
  copied_files-HasFile seen [] files known h = tt
  copied_files-HasFile seen (step ∷ steps) files known h =
      let hash = hash_of step.files_hash in
      elim (Bool-cases (is_copy step)) [
        | inr e ↦ (λ c. absurd (cc (e, c)), copied_files-HasFile seen steps files known (rw e at h))
        | inl e ↦ elim (Bool-cases (hash == "")) [
          | inl n ↦ absurd (cc (rw (e, n) at h))
          | inr n ↦ elim (Bool-cases (among hash seen)) [
            | inl m ↦
                (λ c. known hash m, copied_files-HasFile seen steps files known (rw (e, n, m) at h))
            | inr m ↦
                let (file, rest) =
                  add_file-ok (template_file template_id hash s)
                    (copied_files s template_id (hash ∷ seen) steps) files (rw (e, n, m) at h) in
                let up : IsUploaded s template_id hash =
                  (ground (arith, n, eq_iff hash ""), file) in
                (
                  λ c. up,
                  copied_files-HasFile (hash ∷ seen) steps rest.0 (also hash seen up known) rest.1,
                )
          ]
        ]
      ]

-- If the files of a build are found, each step that copies names a hash, and a file with it was uploaded
-- for the template.
pub build_files-HasFile :
    (s : FileStore) (template_id : String) (steps : List TemplateStep)
    (files : List ManagedTemplateFile)
    → template_build_files s template_id (some steps) ≡ ok files
    → All (HasFile s template_id) steps
unfolding template_build_files
build_files-HasFile s template_id steps files h =
    copied_files-HasFile s template_id [] steps files (λ hash m. absurd (cc m)) h

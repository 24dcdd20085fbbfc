-- ===== src/Docker/Context/Laws.antt =====
-- The checks of the build context agree with those of the upload (internal/backends/docker/runtime.go,
-- internal/gateway/template_files.go).
use e2b_local.Prelude.{
  ℕ, ◌+◌, ltb, String, ◌≡◌, refl, sym, ap, ◌∙◌, Bool, true, false, not, Option, none, some, List,
  arith, inl, inr, Bool-cases, Option-cases, ◌==◌, string_eq, if◌then◌else◌,
}
use e2b_local.Prelude.Int.{ℤ, pos, negsuc}
use e2b_local.Errors.{Error, Result, ok, err}
use e2b_local.Archive.{
  Header, TarReader, eof, broken, entry, safe_template_build_context_tar_name, check_entry,
  validate_entries, validate_template_archive, is_safe, add_data, max_template_archive_entries,
}
use e2b_local.Archive.Laws.{is_accepted, accepted}
use e2b_local.Docker.Context.{
  copied_header, written, append_entry, append_entries, safe_link, unsafe_path, with_header,
  append_template_file_to_docker_build_context,
}

abbrev total_of : Result (Header × ℕ) → Option ℕ
total_of (err e) = none
total_of (ok (h, n)) = some n

abbrev pub is_ok {ℓ} : {A : Type ℓ} → Result A → Bool
is_ok (err e) = false
is_ok (ok a) = true

safe-none : (x : String) → safe_template_build_context_tar_name x ≡ none → is_safe x ≡ false
safe-none x e = rw (is_safe, e) refl

safe-some : (x out : String) → safe_template_build_context_tar_name x ≡ some out → is_safe x ≡ true
safe-some x out e = rw (is_safe, e) refl

copied-unsafe :
    (h : Header)
    → safe_template_build_context_tar_name h.name ≡ none
    → copied_header h ≡ err unsafe_path
unfolding copied_header
copied-unsafe h e = rw (e, copied_header) refl

copied-link :
    (h : Header) (name : String)
    → safe_template_build_context_tar_name h.name ≡ some name
    → copied_header h ≡ elim (safe_link h.linkname) [
      | none ↦ err unsafe_path
      | some link ↦ ok (record h { name = name; linkname = link })
    ]
unfolding copied_header
copied-link h name e = rw (e, copied_header) refl

module _ (writes : Header → Bool) (all_written : (h : Header) → writes h ≡ true) where
  -- The two rounds end with the same number of bytes, or both with an error.
  sizes-agree :
      (bytes : ℕ) (name link : String) (regular : Bool) (size : ℤ) (body : Option ℕ)
      → let h : Header = record { name = name; linkname = link; regular = regular; size = size } in
        accepted (if not regular then ok bytes else add_data bytes size body)
        ≡ total_of (written bytes body writes (ok h))
  sizes-agree bytes name link false size body =
      ground
        (arith, all_written (record { name = name; linkname = link; regular = false; size = size }))
  sizes-agree bytes name link true (negsuc n) body = refl
  sizes-agree bytes name link true (pos n) none =
      ground
        (arith, all_written (record { name = name; linkname = link; regular = true; size = pos n }))
  sizes-agree bytes name link true (pos n) (some m) =
      ground
        (arith, all_written (record { name = name; linkname = link; regular = true; size = pos n }))

  round-agrees :
      (count bytes : ℕ) (h : Header) (body : Option ℕ)
      → accepted (check_entry count bytes h body)
        ≡ total_of (append_entry writes count bytes h body)
  unfolding check_entry append_entry
  round-agrees count bytes h body = elim (Bool-cases (ltb max_template_archive_entries count)) [
    | inl e ↦ rw e refl
    | inr e ↦ elim (Option-cases (safe_template_build_context_tar_name h.name)) [
      | inl f ↦ rw (e, safe-none h.name f, copied-unsafe h f) refl
      | inr (name, f) ↦ elim (Bool-cases (h.linkname == "")) [
        | inl l ↦
            rw (e, safe-some h.name name f, copied-link h name f, l)
              (sizes-agree bytes name "" h.regular h.size body)
        | inr l ↦ elim (Option-cases (safe_template_build_context_tar_name h.linkname)) [
          | inl g ↦
              rw (e, safe-some h.name name f, copied-link h name f, l, safe-none h.linkname g, g)
                refl
          | inr (link, g) ↦
              rw
                (
                  e,
                  safe-some h.name name f,
                  copied-link h name f,
                  l,
                  safe-some h.linkname link g,
                  g,
                )
                (sizes-agree bytes name link h.regular h.size body)
        ]
      ]
    ]
  ]

  is_ok-with_header : (h : Header) (r : Result (List Header)) → is_ok (with_header h r) ≡ is_ok r
  is_ok-with_header h (err e) = refl
  is_ok-with_header h (ok hs) = refl

  -- Two loops go on behind rounds that agree.
  loops-agree :
      (r : Result ℕ) (q : Result (Header × ℕ)) (rest : ℕ → Option Error)
      (others : ℕ → Result (List Header))
      → accepted r ≡ total_of q
      → ((n : ℕ) → is_accepted (rest n) ≡ is_ok (others n))
      → is_accepted (elim r [ err e ↦ some e | ok n ↦ rest n ])
        ≡ is_ok (elim q [ err e ↦ err e | ok (h, n) ↦ with_header h (others n) ])
  loops-agree (err e) (err f) rest others same next = refl
  loops-agree (err e) (ok (h, n)) rest others same next = absurd (cc same)
  loops-agree (ok m) (err f) rest others same next = absurd (cc same)
  loops-agree (ok m) (ok (h, n)) rest others same next =
      next m
      ∙ (ap (λ k. is_ok (others k)) (ground (arith, same)) ∙ sym (is_ok-with_header h (others n)))

  entries-agree :
      (count bytes : ℕ) (reader : TarReader)
      → is_accepted (validate_entries count bytes reader)
        ≡ is_ok (append_entries writes count bytes reader)
  unfolding append_entries validate_entries
  entries-agree count bytes eof = refl
  entries-agree count bytes broken = refl
  entries-agree count bytes (entry h body rest) =
      loops-agree (check_entry (count + 1) bytes h body)
        (append_entry writes (count + 1) bytes h body) (λ n. validate_entries (count + 1) n rest)
        (λ n. append_entries writes (count + 1) n rest) (round-agrees (count + 1) bytes h body)
        (λ n. entries-agree (count + 1) n rest)

  -- If no write to the context fails, an archive is copied into it without an error exactly if the
  -- gateway accepted it at its upload.
  pub append-validate :
      (archive : Option TarReader)
      → is_ok (append_template_file_to_docker_build_context writes archive)
        ≡ is_accepted (validate_template_archive archive)
  unfolding append_template_file_to_docker_build_context validate_template_archive
  append-validate none = refl
  append-validate (some reader) = sym (entries-agree 0 0 reader)

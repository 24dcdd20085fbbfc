-- ===== src/Archive/Laws.antt =====
-- Which archives `validateTemplateArchive` accepts (internal/gateway/template_files.go).
use e2b_local.Prelude.{
  ℕ, suc, ◌+◌, ◌≤◌, String, ◌≡◌, refl, ap, ◌∙◌, Bool, true, false, not, ◌&&◌, ◌||◌, Option, none,
  some, if◌then◌else◌, ◌==◌, string_eq, inl, inr, Bool-cases, arith, leb,
}
use e2b_local.Prelude.Int.{ℤ, pos, negsuc}
use e2b_local.Errors.{Error, Result, ok, err}
use e2b_local.Archive.{
  Header, TarReader, eof, broken, entry, is_safe, check_entry, validate_entries,
  validate_template_archive, max_template_archive_entries, max_template_archive_uncompressed_bytes,
}

-- An entry's paths lead into the directory, and its data is there if it is a file.
abbrev pub is_sound : Header → Option ℕ → Bool
is_sound h copied =
    is_safe h.name
    && ((h.linkname == "") || is_safe h.linkname)
    && (not h.regular || elim copied [ none ↦ false | some _ ↦ true ])

-- The bytes of an entry's data: only a file has any.
abbrev pub data_size : Header → ℕ
data_size h = elim h.size [ pos n ↦ if h.regular then n else 0 | negsuc _ ↦ 0 ]

abbrev pub all_sound : TarReader → Bool
all_sound eof = true
all_sound broken = false
all_sound (entry h copied rest) = let others = all_sound rest in is_sound h copied && others

abbrev pub entry_count : TarReader → ℕ
entry_count eof = 0
entry_count broken = 0
entry_count (entry h copied rest) = suc (entry_count rest)

abbrev pub total_size : TarReader → ℕ
total_size eof = 0
total_size broken = 0
total_size (entry h copied rest) = data_size h + total_size rest

-- `archive/tar`: a file's size is not negative, and copying its data gives that number of bytes or an
-- error.
abbrev pub GivesSize : ℤ → Option ℕ → Type 0
GivesSize (negsuc m) copied = ⊥
GivesSize (pos n) none = Unit
GivesSize (pos n) (some m) = m ≡ n

abbrev pub IsExact : TarReader → Type 0
IsExact eof = Unit
IsExact broken = Unit
IsExact (entry h copied rest) = (h.regular ≡ true → GivesSize h.size copied) × IsExact rest

abbrev pub accepted : Result ℕ → Option ℕ
accepted (ok n) = some n
accepted (err e) = none

abbrev pub is_accepted : Option Error → Bool
is_accepted none = true
is_accepted (some e) = false

-- Whether one round accepts an entry.
abbrev fits : ℕ → ℕ → Header → Option ℕ → Bool
fits count bytes h copied =
    leb count max_template_archive_entries
    && is_sound h copied
    && leb (bytes + data_size h) max_template_archive_uncompressed_bytes

check_entry-fits :
    (count bytes : ℕ) (name linkname : String) (regular : Bool) (size : ℤ) (copied : Option ℕ)
    → bytes ≤ max_template_archive_uncompressed_bytes
    → (regular ≡ true → GivesSize size copied)
    → let h : Header = record {
      name = name;
      linkname = linkname;
      regular = regular;
      size = size;
    } in
      accepted (check_entry count bytes h copied)
      ≡ (if fits count bytes h copied then some (bytes + data_size h) else none)
unfolding check_entry
check_entry-fits count bytes name linkname false (pos n) copied b g = ground arith
check_entry-fits count bytes name linkname false (negsuc n) copied b g = ground arith
check_entry-fits count bytes name linkname true (negsuc n) copied b g = absurd (g refl)
check_entry-fits count bytes name linkname true (pos n) none b g = ground arith
check_entry-fits count bytes name linkname true (pos n) (some m) b g = ground (arith, g refl)

-- A loop goes on behind a round that accepts.
is_accepted-then :
    (r : Result ℕ) (f : Bool) (n : ℕ) (rest : ℕ → Option Error)
    → accepted r ≡ (if f then some n else none)
    → is_accepted (elim r [ err e ↦ some e | ok total ↦ rest total ]) ≡ (f && is_accepted (rest n))
is_accepted-then (ok m) true n rest h = ap (λ i. is_accepted (rest i)) (ground (arith, h))
is_accepted-then (ok m) false n rest h = absurd (cc h)
is_accepted-then (err e) true n rest h = absurd (cc h)
is_accepted-then (err e) false n rest h = refl

validate_entries-total :
    (count bytes : ℕ) (reader : TarReader)
    → count ≤ max_template_archive_entries
    → bytes ≤ max_template_archive_uncompressed_bytes
    → IsExact reader
    → is_accepted (validate_entries count bytes reader) ≡ (
        all_sound reader
        && leb (count + entry_count reader) max_template_archive_entries
        && leb (bytes + total_size reader) max_template_archive_uncompressed_bytes)
unfolding validate_entries
validate_entries-total count bytes eof c b x = ground arith
validate_entries-total count bytes broken c b x = refl
validate_entries-total count bytes (entry h copied rest) c b (g, x) =
    let f = fits (count + 1) bytes h copied in
    let n = bytes + data_size h in
    is_accepted-then (check_entry (count + 1) bytes h copied) f n
      (λ total. validate_entries (count + 1) total rest)
      (check_entry-fits (count + 1) bytes h.name h.linkname h.regular h.size copied b g)
    ∙ elim (Bool-cases f) [
      | inl e ↦
          rw
            (e, validate_entries-total (count + 1) n rest (ground (arith, e)) (ground (arith, e)) x)
            (ground (arith, e))
      | inr e ↦ rw e (ground (arith, e))
    ]

-- If copying the data of each file of an archive gives the number of bytes that its header has, or an
-- error, then the archive is accepted exactly if it can be read to its end, the paths of all its
-- entries are safe, it has 10,000 entries at most, and its files have 512 MB at most.
pub validate_template_archive_lem :
    (reader : TarReader)
    → IsExact reader
    → is_accepted (validate_template_archive (some reader)) ≡ (
        all_sound reader
        && leb (entry_count reader) max_template_archive_entries
        && leb (total_size reader) max_template_archive_uncompressed_bytes)
unfolding validate_template_archive
validate_template_archive_lem reader x =
    ground (arith, validate_entries-total 0 0 reader (omega arith) (omega arith) x)

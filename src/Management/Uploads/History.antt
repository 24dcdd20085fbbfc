-- ===== src/Management/Uploads/History.antt =====
-- Several users of the uploads of internal/gateway/management_store.go: what each critical section
-- does to the store is one step, and the steps of the users come in any order.
use e2b_local.Prelude.{
  String, ◌≡◌, refl, Bool, true, false, Option, none, some, List, [], ◌∷◌, ◌==◌, string_eq,
  Bool-cases, inl, inr, if◌then◌else◌,
}
use e2b_local.Prelude.Dict.{lookup, lookup-insert}
use e2b_local.Types.{Time}
use e2b_local.Management.Uploads.{
  FileStore, Written, refused, stored, find_upload, commit_upload, create_template_file_upload,
}
use e2b_local.Management.Uploads.Laws.{
  IsLater, IsKeyed, IsLater-IsKeyed, create-IsKeyed, find-IsLater, commit-IsLater, commit-uses,
}

pub data UploadEvent : Type 0 where
  prepares : Option String → Time → String → String → UploadEvent
  looks : String → String → String → Time → UploadEvent
  commits : String → String → String → Time → Written → UploadEvent

unfoldable pub step : UploadEvent → FileStore → FileStore
step (prepares secret now template_id hash) s =
    (create_template_file_upload secret now template_id hash s).1
step (looks template_id hash token now) s = (find_upload template_id hash token now s).1
step (commits template_id hash token now w) s = (commit_upload template_id hash token now w s).1

unfoldable pub run : List UploadEvent → FileStore → FileStore
run [] s = s
run (e ∷ es) s = run es (step e s)

unfoldable pub new_file_store : FileStore
new_file_store = record { template_files = []; template_uploads = [] }

abbrev prepares_token : String → UploadEvent → Bool
prepares_token token (prepares none now template_id hash) = false
prepares_token token (prepares (some secret) now template_id hash) = secret == token
prepares_token token (looks template_id hash other now) = false
prepares_token token (commits template_id hash other now w) = false

-- One of the steps draws this token from the random source.
abbrev pub draws : String → List UploadEvent → Bool
draws token [] = false
draws token (e ∷ es) = let rest = draws token es in if prepares_token token e then true else rest

step-IsKeyed : (e : UploadEvent) (s : FileStore) → IsKeyed s → IsKeyed (step e s)
unfolding step
step-IsKeyed (prepares secret now template_id hash) s keyed =
    create-IsKeyed secret now template_id hash s keyed
step-IsKeyed (looks template_id hash token now) s keyed =
    IsLater-IsKeyed s _ (find-IsLater template_id hash token now s) keyed
step-IsKeyed (commits template_id hash token now w) s keyed =
    IsLater-IsKeyed s _ (commit-IsLater template_id hash token now w s) keyed

run-IsKeyed : (es : List UploadEvent) (s : FileStore) → IsKeyed s → IsKeyed (run es s)
unfolding run
run-IsKeyed [] s keyed = keyed
run-IsKeyed (e ∷ es) s keyed = run-IsKeyed es (step e s) (step-IsKeyed e s keyed)

new-IsKeyed : IsKeyed new_file_store
unfolding new_file_store lookup
new-IsKeyed = record { at = λ k u h. absurd (cc h) }

IsLater-absent :
    (token : String) (s n : FileStore)
    → IsLater s n
    → lookup token s.template_uploads ≡ none
    → lookup token n.template_uploads ≡ none
IsLater-absent token s n later gone = elim (later.uploads token) [
  | inl same ↦ rw same gone
  | inr e ↦ e
]

step-absent :
    (token : String) (e : UploadEvent) (s : FileStore)
    → prepares_token token e ≡ false
    → lookup token s.template_uploads ≡ none
    → lookup token (step e s).template_uploads ≡ none
unfolding step
step-absent token (prepares none now template_id hash) s other gone =
    unfold create_template_file_upload in gone
step-absent token (prepares (some secret) now template_id hash) s other gone =
    unfold create_template_file_upload in
    rw (lookup-insert secret token _ s.template_uploads, other) gone
step-absent token (looks template_id hash t now) s other gone =
    IsLater-absent token s _ (find-IsLater template_id hash t now s) gone
step-absent token (commits template_id hash t now w) s other gone =
    IsLater-absent token s _ (commit-IsLater template_id hash t now w s) gone

run-absent :
    (token : String) (es : List UploadEvent) (s : FileStore)
    → draws token es ≡ false
    → lookup token s.template_uploads ≡ none
    → lookup token (run es s).template_uploads ≡ none
unfolding run
run-absent token [] s other gone = gone
run-absent token (e ∷ es) s other gone = elim (Bool-cases (prepares_token token e)) [
  | inl d ↦ absurd (cc (rw d at other))
  | inr d ↦ run-absent token es (step e s) (rw d at other) (step-absent token e s d gone)
]

module _ (template_id hash token : String) (now : Time) (w : Written) (s : FileStore)
    (gone : lookup token s.template_uploads ≡ none) where
  look-refused : (find_upload template_id hash token now s).0 ≡ none
  unfolding find_upload
  look-refused = rw gone refl

  commit-refused : (commit_upload template_id hash token now w s).0 ≡ refused
  unfolding commit_upload find_upload
  commit-refused = rw gone refl

-- In any sequence of steps of a store that was empty at first: once a commit with a token has ended
-- well, and as long as the random source does not draw that token again, the token is refused in both
-- critical sections, for any file and at any time, also where the first was passed before that commit.
pub commit_once :
    (before after : List UploadEvent) (template_id hash token : String) (now : Time) (w : Written)
    (kept : Bool) (other_template other_hash : String) (now_2 : Time) (w_2 : Written)
    → (commit_upload template_id hash token now w (run before new_file_store)).0 ≡ stored kept
    → draws token after ≡ false
    → ((find_upload other_template other_hash token now_2
          (run after (commit_upload template_id hash token now w (run before new_file_store)).1)).0
        ≡ none)
      × ((commit_upload other_template other_hash token now_2 w_2 (
            run after (commit_upload template_id hash token now w (run before new_file_store)).1)).0
          ≡ refused)
commit_once before after template_id hash token now w kept other_template other_hash now_2 w_2 h
      fresh =
    let s = run before new_file_store in
    let used =
      commit-uses template_id hash token now w s kept (run-IsKeyed before _ new-IsKeyed) h in
    let gone = run-absent token after (commit_upload template_id hash token now w s).1 fresh used in
    (
      look-refused other_template other_hash token now_2 w_2 _ gone,
      commit-refused other_template other_hash token now_2 w_2 _ gone,
    )

-- ===== src/Listing/Filter.antt =====
-- Which records a listing shows.
use e2b_local.Prelude.{
  ℕ, suc, ◌+◌, ltb, ◌≡◌, Bool, true, List, [], ◌∷◌, length, take, drop, keep, All, Bool-cases, inl,
  inr, zero,
}
use e2b_local.Types.{SandboxRecord}
use e2b_local.Listing.{
  SandboxListRequest, list_page, list_limit, list_start, filtered, matching, list_result,
  count_running, passes_state_filter, metadata_matches,
}

-- A record that the request asks for: by its metadata, and by its state.
pub record IsAskedFor (req : SandboxListRequest) (r : SandboxRecord) : Type 0 where
  pub by_metadata : metadata_matches r.metadata req.metadata ≡ true
  pub by_state : passes_state_filter req.states r.state ≡ true

module _ (P : SandboxRecord → Type 0) where
  All-take : (n : ℕ) (rs : List SandboxRecord) → All P rs → All P (take n rs)
  All-take zero rs h = tt
  All-take (suc n) [] h = tt
  All-take (suc n) (r ∷ rs) (p, h) = (p, All-take n rs h)

  All-drop : (n : ℕ) (rs : List SandboxRecord) → All P rs → All P (drop n rs)
  All-drop zero rs h = h
  All-drop (suc n) [] h = tt
  All-drop (suc n) (r ∷ rs) (p, h) = All-drop n rs h

  All-list_page :
      (total start limit : ℕ) (rs : List SandboxRecord)
      → All P rs
      → All P (list_page total start limit rs).items
  unfolding list_page
  All-list_page total start limit rs h = elim (Bool-cases (ltb (start + limit) (length rs))) [
    | inl e ↦ rw e (All-take limit (drop start rs) (All-drop start rs h))
    | inr e ↦ rw e (All-drop start rs h)
  ]

  All-keep :
      (p : SandboxRecord → Bool) (Q : SandboxRecord → Type 0)
      → ((r : SandboxRecord) → Q r → p r ≡ true → P r)
      → (rs : List SandboxRecord) → All Q rs
      → All P (keep p rs)
  All-keep p Q f [] h = tt
  All-keep p Q f (r ∷ rs) (q, h) = elim (Bool-cases (p r)) [
    | inl e ↦ rw e (f r q e, All-keep p Q f rs h)
    | inr e ↦ rw e (All-keep p Q f rs h)
  ]

All-any : (rs : List SandboxRecord) → All (λ _. Unit {0}) rs
All-any [] = tt
All-any (r ∷ rs) = (tt, All-any rs)

-- Every record that a page shows matches the metadata and the states of the request.
pub list_result-IsAskedFor :
    (req : SandboxListRequest) (rs : List SandboxRecord)
    → All (IsAskedFor req) (list_result req rs).items
unfolding list_result
list_result-IsAskedFor req rs =
    All-list_page (IsAskedFor req) (count_running (matching req rs))
      (list_start req.next_token (filtered req rs)) (list_limit req.limit) (filtered req rs)
      (All-keep (IsAskedFor req) _ (λ r. metadata_matches r.metadata req.metadata ≡ true)
        (λ r q e. record { by_metadata = q; by_state = e }) (matching req rs)
        (All-keep (λ r. metadata_matches r.metadata req.metadata ≡ true) _ (λ _. Unit {0})
          (λ r _ e. e) rs (All-any rs)))

-- ===== src/Listing.antt =====
-- internal/gateway/gateway_callbacks.go: `defaultListSandboxes`, its filters and its pages.
pub mod Pages
pub mod Filter
pub mod Coherence
use e2b_local.Prelude.{
  ℕ, zero, suc, ◌+◌, ◌-◌, String, Bool, true, false, ◌||◌, Option, none, some, List, [], ◌∷◌, ltb,
  length, take, drop, keep, if◌then◌else◌, ◌==◌, string_eq,
}
use e2b_local.Prelude.Dict.{Dict, lookup}
use e2b_local.Prelude.Texts.{among}
use e2b_local.Prelude.Int.{ℤ, pos, negsuc}
use e2b_local.Errors.{Result, ok, err, bad_request}
use e2b_local.Types.{SandboxRecord, running}
use e2b_local.Store
use e2b_local.Runtime.{Surroundings}
use e2b_local.App.{App, Action, pure, ◌>>=◌, gets}
use e2b_local.Lifecycle.{reconcile_sandbox_records}

abbrev pub max_sandbox_list_limit : ℕ
max_sandbox_list_limit = 100

pub record SandboxListRequest : Type 0 where
  pub metadata : Dict String String
  pub states : List String
  pub next_token : String
  pub limit : ℤ

pub record SandboxListResult : Type 0 where
  pub items : List SandboxRecord
  pub next_token : String
  pub total_running : ℕ

-- A missing key reads as the empty text.
abbrev text_at : Option String → String
text_at none = ""
text_at (some value) = value

unfoldable pub metadata_matches : Dict String String → Dict String String → Bool
metadata_matches metadata [] = true
metadata_matches metadata ((key, value) ∷ filter) =
    let rest = metadata_matches metadata filter in
    if text_at (lookup key metadata) == value then rest else false

-- `sandboxStateFilter` and its test: no states let every state pass.
unfoldable pub passes_state_filter : List String → String → Bool
passes_state_filter [] state = true
passes_state_filter (s ∷ states) state = among state (s ∷ states)

unfoldable pub count_running : List SandboxRecord → ℕ
count_running [] = 0
count_running (r ∷ rs) =
    let rest = count_running rs in if r.state == running then suc rest else rest

-- The index after the record with this id, and the length where there is none.
unfoldable pub index_after : String → List SandboxRecord → ℕ
index_after token [] = 0
index_after token (r ∷ rs) =
    let rest = index_after token rs in if r.id == token then 1 else suc rest

unfoldable pub list_start : String → List SandboxRecord → ℕ
unfolding index_after
list_start token rs = if token == "" then 0 else index_after token rs

unfoldable pub list_limit : ℤ → ℕ
list_limit (negsuc n) = max_sandbox_list_limit
list_limit (pos n) = if ltb n 1 || ltb max_sandbox_list_limit n then max_sandbox_list_limit else n

-- `records[i].ID`, which the source reads at an index in range.
unfoldable pub id_at : ℕ → List SandboxRecord → String
id_at i [] = ""
id_at zero (r ∷ rs) = r.id
id_at (suc i) (r ∷ rs) = id_at i rs

unfoldable pub list_page : ℕ → ℕ → ℕ → List SandboxRecord → SandboxListResult
list_page total start limit rs =
    if ltb (start + limit) (length rs)
    then record {
      items = take limit (drop start rs);
      next_token = id_at (start + limit - 1) rs;
      total_running = total;
    }
    else record { items = drop start rs; next_token = ""; total_running = total }

abbrev pub matching : SandboxListRequest → List SandboxRecord → List SandboxRecord
matching req rs = keep (λ r. metadata_matches r.metadata req.metadata) rs

abbrev pub filtered : SandboxListRequest → List SandboxRecord → List SandboxRecord
filtered req rs = keep (λ r. passes_state_filter req.states r.state) (matching req rs)

unfoldable pub list_result : SandboxListRequest → List SandboxRecord → SandboxListResult
list_result req rs =
    list_page (count_running (matching req rs)) (list_start req.next_token (filtered req rs))
      (list_limit req.limit) (filtered req rs)

unfoldable pub default_list_sandboxes :
    {W : Type 0} → Surroundings W → SandboxListRequest → Action W SandboxListResult
default_list_sandboxes env req = do
  stored ← gets (λ s. Store.list s.store)
  records ← reconcile_sandbox_records env stored
  pure (list_result req records)

-- `paginationLimit`.
unfoldable pub pagination_limit : Option ℤ → Result ℕ
pagination_limit none = ok max_sandbox_list_limit
pagination_limit (some (negsuc n)) = err bad_request
pagination_limit (some (pos n)) =
    if ltb n 1
    then err bad_request
    else if ltb max_sandbox_list_limit n
    then ok max_sandbox_list_limit
    else ok n

-- ===== src/Listing/Pages.antt =====
-- The pages of a listing.
use text.Mathlib.TextEquality.{eq_iff}
use e2b_local.Prelude.{
  ℕ, zero, suc, ◌+◌, ◌-◌, ◌≤◌, ◌<◌, String, ◌≡◌, ◌≢◌, refl, ◌∙◌, true, false, List, [], ◌∷◌, ◌++◌,
  arith, ltb, length, take, drop, All, length-take, length-drop, take-append-drop, append_empty,
  drop-drop, if◌then◌else◌, ◌==◌, string_eq, Bool-cases, inl, inr,
}
use e2b_local.Prelude.Int.{ℤ, pos, negsuc}
use e2b_local.Types.{SandboxRecord}
use e2b_local.Listing.{
  SandboxListRequest, list_page, list_limit, list_start, index_after, id_at, filtered, matching,
  list_result, max_sandbox_list_limit, count_running,
}

-- No two records have one id, and no id is empty.
abbrev pub HasIds : List SandboxRecord → Type 0
HasIds [] = Unit
HasIds (r ∷ rs) = (r.id ≢ "") × All (λ q. r.id ≢ q.id) rs × HasIds rs

All-id_at :
    (k : String) (rs : List SandboxRecord) (i : ℕ)
    → i < length rs
    → All (λ q. k ≢ q.id) rs
    → k ≢ id_at i rs
unfolding id_at
All-id_at k [] i h all = absurd (omega (arith, h))
All-id_at k (r ∷ rs) zero h (p, all) = p
All-id_at k (r ∷ rs) (suc i) h (p, all) = All-id_at k rs i (omega (arith, h)) all

id_at-nonempty : (rs : List SandboxRecord) (i : ℕ) → i < length rs → HasIds rs → id_at i rs ≢ ""
unfolding id_at
id_at-nonempty [] i h ids = absurd (omega (arith, h))
id_at-nonempty (r ∷ rs) zero h (p, q, ids) = p
id_at-nonempty (r ∷ rs) (suc i) h (p, q, ids) = id_at-nonempty rs i (omega (arith, h)) ids

index_after-id_at :
    (rs : List SandboxRecord) (i : ℕ)
    → i < length rs
    → HasIds rs
    → index_after (id_at i rs) rs ≡ suc i
unfolding id_at index_after
index_after-id_at [] i h ids = absurd (omega (arith, h))
index_after-id_at (r ∷ rs) zero h ids = ground (arith, eq_iff r.id r.id)
index_after-id_at (r ∷ rs) (suc i) h (p, q, ids) = ground (
  arith,
  index_after-id_at rs i (omega (arith, h)) ids,
  eq_iff r.id (id_at i rs),
  All-id_at r.id rs i (omega (arith, h)) q,
)

list_start-id_at :
    (rs : List SandboxRecord) (i : ℕ)
    → i < length rs
    → HasIds rs
    → list_start (id_at i rs) rs ≡ suc i
unfolding list_start
list_start-id_at rs i h ids =
    ground (arith, index_after-id_at rs i h ids, eq_iff (id_at i rs) "", id_at-nonempty rs i h ids)

-- A client that asks for page after page until there is no next token.
unfoldable pub walk : ℕ → ℕ → ℕ → String → List SandboxRecord → List SandboxRecord
walk total limit zero token rs = []
walk total limit (suc fuel) token rs =
    let page = list_page total (list_start token rs) limit rs in
    let rest = walk total limit fuel page.next_token rs in
    page.items ++ (if page.next_token == "" then [] else rest)

-- The page after the first `k` records, where more follow.
inner_page :
    (total limit k : ℕ) (rs : List SandboxRecord)
    → k + limit < length rs
    → list_page total k limit rs ≡ record {
      items = take limit (drop k rs);
      next_token = id_at (k + limit - 1) rs;
      total_running = total;
    }
unfolding list_page
inner_page total limit k rs h =
    let e : ltb (k + limit) (length rs) ≡ true = ground (arith, h) in rw e

last_page :
    (total limit k : ℕ) (rs : List SandboxRecord)
    → length rs ≤ k + limit
    → list_page total k limit rs
      ≡ record { items = drop k rs; next_token = ""; total_running = total }
unfolding list_page
last_page total limit k rs h =
    let e : ltb (k + limit) (length rs) ≡ false = ground (arith, h) in rw e

walk_from :
    (total limit fuel k : ℕ) (token : String) (rs : List SandboxRecord)
    → 1 ≤ limit
    → HasIds rs
    → list_start token rs ≡ k
    → length rs < k + fuel
    → k ≤ length rs
    → walk total limit fuel token rs ≡ drop k rs
unfolding walk
walk_from total limit zero k token rs pos_limit ids e enough h = absurd (omega (arith, enough, h))
walk_from total limit (suc fuel) k token rs pos_limit ids e enough h =
    elim (Bool-cases (ltb (k + limit) (length rs))) [
      | inl more ↦
          let more_lt : k + limit < length rs = ground (arith, more) in
          let last : ℕ = k + limit - 1 in
          let last_lt : last < length rs = omega (arith, more_lt, pos_limit) in
          let named : (id_at last rs == "") ≡ false =
            ground (arith, eq_iff (id_at last rs) "", id_at-nonempty rs last last_lt ids) in
          let next : list_start (id_at last rs) rs ≡ k + limit =
            list_start-id_at rs last last_lt ids ∙ omega (arith, pos_limit) in
          let tail : walk total limit fuel (id_at last rs) rs ≡ drop (k + limit) rs =
            walk_from total limit fuel (k + limit) (id_at last rs) rs pos_limit ids next
              (omega (arith, enough, pos_limit)) (omega (arith, more_lt)) in
          rw (e, inner_page total limit k rs more_lt, named, tail, drop-drop k limit rs)
            (take-append-drop limit (drop k rs))
      | inr done ↦
          let over : length rs ≤ k + limit = ground (arith, done) in
          rw (e, last_page total limit k rs over) (append_empty (drop k rs))
    ]

-- Where the ids are distinct and not empty, a client that starts without a token and follows the
-- tokens sees each record once, in order, with any limit of at least one: as many requests as there
-- are records, and one more, are enough.
pub walk_all :
    (total limit fuel : ℕ) (rs : List SandboxRecord)
    → 1 ≤ limit
    → HasIds rs
    → length rs < fuel
    → walk total limit fuel "" rs ≡ rs
walk_all total limit fuel rs pos_limit ids enough =
    walk_from total limit fuel 0 "" rs pos_limit ids (unfold list_start in refl)
      (omega (arith, enough)) (omega arith)

list_limit-bounds : (n : ℤ) → (1 ≤ list_limit n) × (list_limit n ≤ max_sandbox_list_limit)
unfolding list_limit
list_limit-bounds (pos n) = ground arith
list_limit-bounds (negsuc n) = ground arith

length-list_page :
    (total start limit : ℕ) (rs : List SandboxRecord)
    → length (list_page total start limit rs).items ≤ limit
unfolding list_page
length-list_page total start limit rs =
    ground (arith, length-take limit (drop start rs), length-drop start rs)

-- Whatever limit is asked for, a page has at most 100 records.
pub length-list_result :
    (req : SandboxListRequest) (rs : List SandboxRecord)
    → length (list_result req rs).items ≤ max_sandbox_list_limit
unfolding list_result
length-list_result req rs =
    let b = list_limit-bounds req.limit in
    omega (
      arith,
      b.1,
      length-list_page (count_running (matching req rs))
          (list_start req.next_token (filtered req rs)) (list_limit req.limit) (filtered req rs),
    )

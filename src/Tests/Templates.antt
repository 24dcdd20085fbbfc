-- ===== src/Tests/Templates.antt =====
-- The theorems on listings, builds, tags, logs and uploads, at small data.
use text.Mathlib.TextEquality.{eq_iff}
use e2b_local.Prelude.{
  ◌*◌, String, ◌≡◌, ◌≢◌, ◌↔◌, refl, false, not, ◌&&◌, none, List, [], ◌∷◌, arith, map, ◌==◌,
  string_eq, trim_space,
}
use e2b_local.Prelude.Int.{pos}
use e2b_local.Prelude.Dict.{lookup}
use e2b_local.Prelude.Order.{IsSorted}
use e2b_local.Prelude.Texts.{among, IsUnique, text_before}
use e2b_local.Types.{SandboxRecord, second}
use e2b_local.Listing.{SandboxListRequest}
use e2b_local.Listing.Pages.{HasIds, walk, walk_all}
use e2b_local.Builds.{
  TemplateBuildKey, TemplateBuildManager, new_template_build_manager, reserve, key_eq, task,
  new_task,
}
use e2b_local.Builds.Laws.{IsFree, reserve_iff}
use e2b_local.Builds.Bound.{starts, goes, reserves, IsBounded, Reaches-IsBounded}
use e2b_local.Names.{normalized_tags, normalized_tags_lem}
use e2b_local.Logs.{BuildLogEntry}
use e2b_local.Tests.{box}

abbrev named : String → SandboxRecord
named id = record (box (9 * second)) { id = id }

abbrev three : List SandboxRecord
three = named "a" ∷ named "b" ∷ named "c" ∷ []

differ : (s t : String) → (s == t) ≡ false → s ≢ t
differ s t e h = absurd (cc ((eq_iff s t).1 h, e))

walk_all_example : walk 3 2 4 "" three ≡ three
walk_all_example = walk_all 3 2 4 three (omega arith) ids (omega arith)
  where
    ids : HasIds three
    ids = (
      differ "a" "" refl,
      (differ "a" "b" refl, (differ "a" "c" refl, tt)),
      (differ "b" "" refl, (differ "b" "c" refl, tt), (differ "c" "" refl, tt, tt)),
    )

abbrev wanted : SandboxListRequest
wanted = record {
  metadata = ("team", "x") ∷ [];
  states = "running" ∷ [];
  next_token = "";
  limit = pos 2;
}

abbrev key : TemplateBuildKey
key = record { template_id = "base"; build_id = "b1" }

abbrev idle : TemplateBuildManager
idle = new_template_build_manager (pos 1)

Reaches-IsBounded_example : IsBounded (pos 1) (reserve key (reserve key idle).1).1
Reaches-IsBounded_example =
    Reaches-IsBounded (pos 1) (reserve key (reserve key idle).1).1
      (goes (goes starts (reserves key idle)) (reserves key (reserve key idle).1))

idle-IsFree : IsFree key idle
unfolding new_template_build_manager lookup
idle-IsFree = record { open_for_builds = refl; unreserved = refl; room = omega arith }

reserve_iff_example : ((reserve key idle).0 ≡ task (new_task key idle)) ↔ IsFree key idle
reserve_iff_example = reserve_iff key idle

abbrev busy : TemplateBuildManager
busy = (reserve key idle).1

abbrev tags : List String
tags = "v2" ∷ " v1 " ∷ "" ∷ "v2" ∷ []

normalized_tags_lem_example :
    IsSorted text_before (normalized_tags tags)
    × IsUnique (normalized_tags tags)
    × ((v : String)
        → among v (normalized_tags tags) ≡ (not (v == "") && among v (map trim_space tags)))
normalized_tags_lem_example = normalized_tags_lem tags

abbrev entry : String → BuildLogEntry
entry message = record { level = "info"; message = message; step = none; timestamp = 5 * second }

abbrev logs : List BuildLogEntry
logs = entry "one" ∷ entry "two" ∷ entry "three" ∷ entry "four" ∷ []

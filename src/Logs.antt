-- ===== src/Logs.antt =====
-- internal/gateway/gateway_callbacks.go: the logs of a template build, and the part of them that a
-- request selects.
pub mod Laws
use e2b_local.Prelude.{
  ℕ, ◌+◌, ◌-◌, ◌*◌, String, Bool, true, false, Option, none, some, List, [], ◌∷◌, ◌++◌, map, ltb,
  leb, length, take, drop, keep, if◌then◌else◌, ◌==◌, string_eq, nat_beq,
}
use e2b_local.Prelude.Int.{ℤ, pos, negsuc}
use e2b_local.Types.{Time}

pub record BuildLogEntry : Type 0 where
  pub level : String
  pub message : String
  pub step : Option String
  pub timestamp : Time

unfoldable pub filter_build_logs : List BuildLogEntry → Option String → List BuildLogEntry
filter_build_logs logs none = logs
filter_build_logs logs (some level) = keep (λ entry. entry.level == level) logs

unfoldable pub offset_build_logs : List BuildLogEntry → Option ℤ → List BuildLogEntry
offset_build_logs logs none = logs
offset_build_logs logs (some (negsuc n)) = logs
offset_build_logs logs (some (pos n)) = if leb (length logs) n then [] else drop n logs

-- `Timestamp.UnixMilli() >= cursor`, for times after 1970: a millisecond is a million nanoseconds.
abbrev pub since : ℕ → BuildLogEntry → Bool
since cursor entry = leb (cursor * 1_000_000) entry.timestamp

unfoldable pub cursor_build_logs : List BuildLogEntry → Option ℤ → List BuildLogEntry
cursor_build_logs logs none = logs
cursor_build_logs logs (some (negsuc n)) = logs
cursor_build_logs logs (some (pos n)) = if nat_beq n 0 then logs else keep (since n) logs

unfoldable pub limit_build_logs : List BuildLogEntry → Option ℤ → List BuildLogEntry
limit_build_logs logs none = logs
limit_build_logs logs (some (negsuc n)) = logs
limit_build_logs logs (some (pos n)) =
    if nat_beq n 0 then logs else if leb (length logs) n then logs else take n logs

-- The loop that exchanges the i-th and the j-th item from both ends.
unfoldable pub reverse_build_logs : List BuildLogEntry → List BuildLogEntry
reverse_build_logs [] = []
reverse_build_logs (entry ∷ logs) = reverse_build_logs logs ++ (entry ∷ [])

unfoldable pub build_log_messages : List BuildLogEntry → List String
build_log_messages logs = map (λ entry. entry.message) logs

unfoldable pub append_build_logs : List (List BuildLogEntry) → List BuildLogEntry
append_build_logs [] = []
append_build_logs (group ∷ groups) = group ++ append_build_logs groups

-- The logs of `defaultGetTemplateBuildInfo`.
unfoldable pub info_logs :
    List BuildLogEntry → Option String → Option ℤ → Option ℤ → List BuildLogEntry
info_logs logs level offset limit =
    limit_build_logs (offset_build_logs (filter_build_logs logs level) offset) limit

-- The logs of `defaultGetTemplateBuildLogs`.
unfoldable pub response_logs :
    List BuildLogEntry → Option String → Option ℤ → Option ℤ → Bool → List BuildLogEntry
response_logs logs level cursor limit backward =
    let chosen = limit_build_logs (cursor_build_logs (filter_build_logs logs level) cursor) limit in
    if backward then reverse_build_logs chosen else chosen

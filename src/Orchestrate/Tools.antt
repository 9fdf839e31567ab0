-- ===== src/Orchestrate/Tools.antt =====
-- orchestrate/tools.go, with `TruncateToolResult` of textutil/textutil.go.
use sokratos.Base.{
  ℕ, Bool, false, ◌||◌, List, [], ◌∷◌, leb, ◌==◌, if◌then◌else◌, length, take, bytes, has_prefix,
  bytes_eq,
}

abbrev pub Text : Type 0
Text = List ℕ

-- A tool's result, whole or cut to its first bytes, with its length and the hint.
pub data Shown : Type 0 where
  whole : Text → Shown
  cut : Text → ℕ → Text → Shown

unfoldable pub truncate_tool_result : Text → ℕ → Text → Shown
truncate_tool_result s max_len hint =
    if leb (length s) max_len then whole s else cut (take max_len s) (length s) hint

pub data Hint : Type 0 where
  consider_search_web try_broadening try_keywords no_hint : Hint

unfoldable pub tool_hint : Text → Hint
tool_hint name =
    if has_prefix name (bytes "get-") || has_prefix name (bytes "twitter-")
    then consider_search_web
    else if bytes_eq name (bytes "search_email") || bytes_eq name (bytes "search_calendar")
    then try_broadening
    else if bytes_eq name (bytes "search_memory")
    then try_keywords
    else no_hint

-- `strings.Contains(s, sub)`.
unfoldable pub contains : Text → Text → Bool
contains [] sub = has_prefix [] sub
contains (c ∷ s) sub = has_prefix (c ∷ s) sub || contains s sub

unfoldable pub contains_any : Text → List Text → Bool
unfolding contains
contains_any s [] = false
contains_any s (p ∷ ps) = contains s p || contains_any s ps

abbrev soft_error_patterns : List Text
soft_error_patterns =
    bytes "error"
    ∷ bytes "failed"
    ∷ bytes "timeout"
    ∷ bytes "deadline exceeded"
    ∷ bytes "unavailable"
    ∷ bytes "not found"
    ∷ bytes "no results"
    ∷ bytes "could not"
    ∷ []

-- The test on the trimmed result, which is not empty where it has a first byte.
soft_error_in : (Text → Text) → Text → Bool
unfolding contains_any
soft_error_in to_lower [] = false
soft_error_in to_lower (c ∷ s) =
    if c == b'{' || c == b'['
    then false
    else contains_any (take 200 (to_lower (c ∷ s))) soft_error_patterns

-- `strings.TrimSpace` and `strings.ToLower` are arguments.
unfoldable pub is_tool_soft_error : (Text → Text) → (Text → Text) → Text → Bool
unfolding soft_error_in
is_tool_soft_error trim_space to_lower result = soft_error_in to_lower (trim_space result)

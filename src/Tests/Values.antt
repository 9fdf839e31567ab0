-- ===== src/Tests/Values.antt =====
-- Examples for textutil, pipelines/retry.go, timefmt and routines, toolreg and the share limiter.
use sokratos.Base.{
  ℕ, ◌+◌, ◌*◌, ◌≡◌, refl, Bool, true, ◌||◌, Option, none, some, List, [], ◌∷◌, ◌++◌, ltb, leb,
  if◌then◌else◌, bytes, pos, arith,
}
use sokratos.Text.{truncate, extract_json}
use sokratos.Text.Json.{raw, Body, done, literal, plain, object, print, extract_json_first}
use sokratos.Attempts.{Verdict, retry, Answer, value, error, retry_with_backoff}
use sokratos.Attempts.Backoffs.{Ends, retry_with_backoff-Ends}
use sokratos.Schedule.{parse_schedule}
use sokratos.Selector.{selection, hit}
use sokratos.Shares.{ShareLimiter, allowed, new_share_limiter, half_hour}
use sokratos.Shares.Limits.{Spaced, allowed-Spaced}

-- Whether a byte is none of 128, …, 191.
abbrev starts : ℕ → Bool
starts c = ltb c 128 || leb 192 c

-- An é of two bytes is not cut in half.
abbrev cafe : List ℕ
cafe = b'c' ∷ b'a' ∷ b'f' ∷ 195 ∷ 169 ∷ b'!' ∷ []

cut_before : truncate starts cafe 4 ≡ bytes "caf..."
unfolding truncate
cut_before = refl

-- `{"a}":{}}`.
abbrev nested : Body
nested = literal (raw b'a' ∷ raw b'}' ∷ []) (plain b':' (object done done))

abbrev prose : List ℕ
prose = bytes "Sure: "

extract_json_first_example :
    extract_json (prose ++ print (object nested done) (bytes " Done}"))
    ≡ print (object nested done) []
extract_json_first_example =
    extract_json_first prose (bytes " Done}") nested (ground arith) (ground arith)

abbrev third_time : ℕ → Answer
third_time n = if ltb n 3 then error n else value 7

abbrev always : ℕ → Verdict
always e = retry 1

abbrev lives : ℕ → Option ℕ
lives n = none

two_waits : (retry_with_backoff third_time always lives 5 10).waits ≡ 10 ∷ 20 ∷ []
unfolding retry_with_backoff
two_waits = refl

retry_with_backoff-Ends_example :
    Ends third_time always lives 4 1 10 (retry_with_backoff third_time always lives 5 10)
retry_with_backoff-Ends_example = retry_with_backoff-Ends third_time always lives 4 10

-- Not digits, and yet a time.
ten_thirty : parse_schedule (bytes "0::30") ≡ some (10, 30)
unfolding parse_schedule
ten_thirty = refl

abbrev untrimmed : List ℕ → List ℕ
untrimmed s = s

abbrev twice_a_day : List (List ℕ)
twice_a_day = bytes "07:05" ∷ bytes "19:30" ∷ []

abbrev minutes : ℕ → ℕ → ℕ
minutes h m = h * 60 + m

abbrev ranked : List (List ℕ)
ranked = bytes "send_email" ∷ bytes "write_file" ∷ []

-- Sending comes with searching; the second best is not taken.
with_search : hit (selection 1 ranked) (bytes "search_email" ∷ []) ≡ true
unfolding selection hit
with_search = refl

abbrev one_day : ℕ → ℕ
one_day t = 0

abbrev limiter : ShareLimiter
limiter = record {
  daily = 0;
  last_sent = none;
  day_start = 0;
  max_daily = 2;
  min_interval = half_hour;
}

new_limiter : new_share_limiter one_day (pos 2) 5 ≡ limiter
unfolding new_share_limiter
new_limiter = refl

-- The second call comes too soon, and the last is the third of the day.
abbrev asked : List ℕ
asked = 10 ∷ 20 ∷ (10 + half_hour) ∷ (10 + 2 * half_hour) ∷ []

two_allowed : allowed one_day limiter asked ≡ 10 ∷ (10 + half_hour) ∷ []
unfolding allowed
two_allowed = refl

allowed-Spaced_example :
    Spaced limiter.min_interval limiter.last_sent (allowed one_day limiter asked)
allowed-Spaced_example = allowed-Spaced one_day limiter asked

-- ===== src/Client/Http.antt =====
-- The exchanges with the server in clients/base_client.go: `doRequest`, and the health checks
-- `ensureLoaded` and `waitForReady`. What `net/http`, `encoding/json` and the ticker deliver is data.
use Prim.Native.String.{String}
use mathlib.Core.List.{append-nil}
use sokratos.Base.{
  ℕ, ◌≡◌, ◌≢◌, refl, ap, sym, ◌∙◌, Option, none, some, List, [], ◌∷◌, ◌++◌, ◌==◌, if◌then◌else◌,
  arith, All,
}
use sokratos.Breaker.{Failure, server_fault}
use sokratos.Client.{Reply, failed, text, is_blank}

-- The first choice of a decoded answer: its content and its reasoning content.
pub data Body : Type 0 where
  undecodable no_choices : Body
  choice : String → String → Body

pub data Exchange : Type 0 where
  not_created : Exchange
  not_sent : Failure → Exchange
  answered : ℕ → Body → Exchange

-- `strings.TrimSpace` is an argument.
module _ (trim_space : String → String) where
  unfoldable pub content_of : Body → Reply
  content_of undecodable = failed server_fault
  content_of no_choices = failed server_fault
  content_of (choice content reasoning) =
      let trimmed = trim_space content in
      text (if is_blank trimmed then trim_space reasoning else trimmed)

  unfoldable pub do_request : Exchange → Reply
  unfolding content_of
  do_request not_created = failed server_fault
  do_request (not_sent e) = failed e
  do_request (answered status body) = if status == 200 then content_of body else failed server_fault

-- What one turn of the polling loop meets.
pub data Poll : Type 0 where
  context_done : Failure → Poll
  no_answer : Poll
  health : ℕ → Poll

-- `some none` is the error nil; `none`, that the loop still polls after these turns.
unfoldable pub wait_for_ready : List Poll → Option (Option Failure)
wait_for_ready [] = none
wait_for_ready (context_done e ∷ rest) = some (some e)
wait_for_ready (no_answer ∷ rest) = wait_for_ready rest
wait_for_ready (health status ∷ rest) =
    let later = wait_for_ready rest in if status == 200 then some none else later

unfoldable pub ensure_loaded : Exchange → List Poll → Option (Option Failure)
unfolding wait_for_ready
ensure_loaded not_created polls = some (some server_fault)
ensure_loaded (not_sent e) polls = some (some e)
ensure_loaded (answered status body) polls =
    if status == 200 then some none else wait_for_ready polls

-- A turn after which the loop polls again.
abbrev pub IsQuiet : Poll → Type 0
IsQuiet (context_done e) = ⊥
IsQuiet no_answer = Unit
IsQuiet (health status) = status ≢ 200

wait_for_ready-quiet :
    (quiet rest : List Poll)
    → All IsQuiet quiet
    → wait_for_ready (quiet ++ rest) ≡ wait_for_ready rest
unfolding wait_for_ready
wait_for_ready-quiet [] rest q = refl
wait_for_ready-quiet (context_done e ∷ quiet) rest q = elim q.0 [ ]
wait_for_ready-quiet (no_answer ∷ quiet) rest q = wait_for_ready-quiet quiet rest q.1
wait_for_ready-quiet (health status ∷ quiet) rest q =
    ground (arith, wait_for_ready-quiet quiet rest q.1)

-- While the health check answers neither 200 nor at all and the context lives, the loop polls on;
-- the first answer 200 ends it without an error, and the end of the context with the context's.
pub wait_for_ready_first :
    (quiet rest : List Poll) (e : Failure)
    → All IsQuiet quiet
    → (wait_for_ready quiet ≡ none)
      × (wait_for_ready (quiet ++ health 200 ∷ rest) ≡ some none)
      × (wait_for_ready (quiet ++ context_done e ∷ rest) ≡ some (some e))
unfolding wait_for_ready
wait_for_ready_first quiet rest e q = (
  ap wait_for_ready (sym (append-nil quiet)) ∙ wait_for_ready-quiet quiet [] q,
  wait_for_ready-quiet quiet _ q,
  wait_for_ready-quiet quiet _ q,
)

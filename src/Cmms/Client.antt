-- ===== src/Cmms/Client.antt =====
-- `CmmsClient._request` and its callers: bounded retry with a growing pause.
use processguard_ai.Cmms.Messages.{
  slept, sent, network_error, reply, is_write, NetEvent, Response, Server, Body, Request,
}
use processguard_ai.Base.{
  ℕ, zero, suc, Bool, ◌&&◌, ◌||◌, none, some, List, [], ◌∷◌, ◌++◌, ltb, leb, ◌==◌, if◌then◌else◌,
  Text, codes,
}

-- `ok_codes`: 200, and 201 too for the requests that create or resolve.
unfoldable pub ok_code : Request → ℕ → Bool
ok_code r code = code == 200 || is_write r && code == 201

-- What one response means: the call returns, raises CmmsError, or may be tried again.
pub data Verdict : Type 0 where
  accepted : Body → Verdict
  refused : ℕ → Verdict
  transient : Verdict

unfoldable pub judge : Request → Response → Verdict
unfolding ok_code
judge r network_error = transient
judge r (reply code body) =
    if ok_code r code
    then (elim body [ some b ↦ accepted b | none ↦ transient ])
    else if leb 400 code && ltb code 500
    then refused code
    else transient

-- How a call ends: it returns the body, or raises CmmsError. It raises nothing else.
pub data CallResult : Type 0 where
  returned : Body → CallResult
  raised_cmms_error : Text → CallResult

-- The text of the raised CmmsError, by its cause.
abbrev pub rejected_by_server : Text
rejected_by_server = codes "HTTP client error"

abbrev pub exhausted_retries : Text
exhausted_retries = codes "exhausted retries"

-- `if attempt < self._retry_attempts: await asyncio.sleep(self._backoff * attempt)`, where `left`
-- attempts are to come.
abbrev pub pause : ℕ → ℕ → List NetEvent → List NetEvent
pause zero attempt log = log
pause (suc left) attempt log = log ++ slept attempt ∷ []

-- The `for attempt in range(1, attempts + 1)` loop, with `left` attempts to go.
unfoldable pub request_loop : Server → Request → ℕ → ℕ → List NetEvent → CallResult × List NetEvent
request_loop server r attempt zero log = (raised_cmms_error exhausted_retries, log)
request_loop server r attempt (suc left) log =
    let after = log ++ sent r ∷ [] in
    let paused = pause left attempt after in
    let again = request_loop server r (suc attempt) left paused in
    elim (judge r (server log r)) [
      | accepted b ↦ (returned b, after)
      | refused code ↦ (raised_cmms_error rejected_by_server, after)
      | transient ↦ again
    ]

-- `self._retry_attempts = max(1, int(retry_attempts))`
abbrev pub at_least_one : ℕ → ℕ
at_least_one zero = 1
at_least_one (suc n) = suc n

unfoldable pub request : Server → ℕ → Request → List NetEvent → CallResult × List NetEvent
request server attempts r log = request_loop server r 1 (at_least_one attempts) log

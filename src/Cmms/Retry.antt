-- ===== src/Cmms/Retry.antt =====
-- How often a request goes out.
use processguard_ai.Cmms.Client.{
  raised_cmms_error, returned, CallResult, at_least_one, request, exhausted_retries,
  rejected_by_server, transient, refused, accepted, Verdict, request_loop, judge,
}
use processguard_ai.Cmms.Messages.{slept, Body, sent, Request, NetEvent, Server}
use processguard_ai.Base.{
  ℕ, zero, suc, ◌+◌, ◌≤◌, ◌≡◌, refl, ◌⊎◌, inl, inr, List, [], ◌∷◌, ◌++◌, arith,
}

abbrev count_one : NetEvent → ℕ
count_one (sent r) = 1
count_one (slept n) = 0

-- The requests on the wire.
unfoldable pub count_sent : List NetEvent → ℕ
count_sent [] = 0
count_sent (e ∷ log) = count_one e + count_sent log

pub count_sent-append :
    (xs ys : List NetEvent) → count_sent (xs ++ ys) ≡ count_sent xs + count_sent ys
unfolding count_sent
count_sent-append [] ys = omega arith
count_sent-append (e ∷ xs) ys = omega (arith, count_sent-append xs ys)

-- How a call ends, with `left` attempts allowed and `k` requests sent: an accepted answer, a client
-- error, or nothing but transient failures on every attempt; and a retry only after a transient one.
pub data Run (server : Server) (r : Request)
    : (left k : ℕ) (log : List NetEvent) (out : CallResult) → Type 0 where
  answered :
      {left : ℕ} (log : List NetEvent) (b : Body)
      → judge r (server log r) ≡ accepted b
      → Run server r (suc left) (suc zero) log (returned b)
  rejected :
      {left : ℕ} (log : List NetEvent) (code : ℕ)
      → judge r (server log r) ≡ refused code
      → Run server r (suc left) (suc zero) log (raised_cmms_error rejected_by_server)
  gave_up :
      (log : List NetEvent)
      → judge r (server log r) ≡ transient
      → Run server r (suc zero) (suc zero) log (raised_cmms_error exhausted_retries)
  retried :
      {left k : ℕ} (log : List NetEvent) (attempt : ℕ) {out : CallResult}
      → judge r (server log r) ≡ transient
      → Run server r (suc left) k ((log ++ sent r ∷ []) ++ slept attempt ∷ []) out
      → Run server r (suc (suc left)) (suc k) log out

Verdict-cases :
    (v : Verdict)
    → ((b : Body) × (v ≡ accepted b)) ⊎ (((c : ℕ) × (v ≡ refused c)) ⊎ (v ≡ transient))
Verdict-cases (accepted b) = inl (b, refl)
Verdict-cases (refused c) = inr (inl (c, refl))
Verdict-cases transient = inr (inr refl)

-- The number of requests of a call, and how it ended.
abbrev pub Outcome : Server → Request → ℕ → List NetEvent → CallResult × List NetEvent → Type 0
Outcome server r left log (out, after) =
    (k : ℕ) × (count_sent after ≡ count_sent log + k)
    × (1 ≤ k)
    × (k ≤ left)
    × Run server r left k log out

count_pause :
    (r : Request) (attempt : ℕ) (log : List NetEvent)
    → count_sent ((log ++ sent r ∷ []) ++ slept attempt ∷ []) ≡ count_sent log + 1
unfolding count_sent
count_pause r attempt log = omega (
  arith,
  count_sent-append (log ++ sent r ∷ []) (slept attempt ∷ []),
  count_sent-append log (sent r ∷ []),
)

count_last :
    (r : Request) (log : List NetEvent) → count_sent (log ++ sent r ∷ []) ≡ count_sent log + 1
unfolding count_sent
count_last r log = omega (arith, count_sent-append log (sent r ∷ []))

request_loop-Outcome :
    (server : Server) (r : Request) (attempt left : ℕ) (log : List NetEvent)
    → Outcome server r (suc left) log (request_loop server r attempt (suc left) log)
unfolding request_loop
request_loop-Outcome server r attempt zero log = elim (Verdict-cases (judge r (server log r))) [
  | inl (b, e) ↦
      rw (e, request_loop) (1, count_last r log, omega arith, omega arith, answered log b e)
  | inr (inl (c, e)) ↦
      rw (e, request_loop) (1, count_last r log, omega arith, omega arith, rejected log c e)
  | inr (inr e) ↦
      rw (e, request_loop) (1, count_last r log, omega arith, omega arith, gave_up log e)
]
request_loop-Outcome server r attempt (suc left) log =
    elim (Verdict-cases (judge r (server log r))) [
      | inl (b, e) ↦
          rw (e, request_loop) (1, count_last r log, omega arith, omega arith, answered log b e)
      | inr (inl (c, e)) ↦
          rw (e, request_loop) (1, count_last r log, omega arith, omega arith, rejected log c e)
      | inr (inr e) ↦
          let paused = (log ++ sent r ∷ []) ++ slept attempt ∷ [] in
          let (k, counted, some_sent, bounded, run) =
            request_loop-Outcome server r (suc attempt) left paused in
          rw (e, request_loop)
            (
              suc k,
              omega (arith, count_pause r attempt log, counted),
              omega arith,
              omega arith,
              retried log attempt e run,
            )
    ]

-- A call sends at least one request and at most `max(1, retry_attempts)`. It ends with the first
-- response that is not transient: the body of an accepted answer, or a CmmsError for a client error,
-- which is never retried; it gives up only when every allowed attempt met a transient failure.
pub request-Outcome :
    (server : Server) (attempts : ℕ) (r : Request) (log : List NetEvent)
    → Outcome server r (at_least_one attempts) log (request server attempts r log)
unfolding request
request-Outcome server zero r log = request_loop-Outcome server r 1 0 log
request-Outcome server (suc n) r log = request_loop-Outcome server r 1 n log

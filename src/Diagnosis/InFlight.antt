-- ===== src/Diagnosis/InFlight.antt =====
-- `_in_progress`: the triggers of one incident, in any order with the ends of its calls.
use processguard_ai.Db.{IdText}
use processguard_ai.Diagnosis.Waits.{Agent, is_in, begin, without, finish}
use processguard_ai.Base.{
  if_ind, ◌≡◌, refl, ap, inl, inr, false, Option, none, some, List, [], ◌∷◌, arith, Bool-cases,
}

-- What happens to the agent: a trigger arrives, or a running call ends.
pub data Move : Type 0 where
  triggers : Option IdText → Move
  ends : IdText → Move

unfoldable pub apply : Move → Agent → Agent
apply (triggers t) a = begin t a
apply (ends t) a = finish t a

unfoldable pub run_moves : List Move → Agent → Agent
run_moves [] a = a
run_moves (m ∷ ms) a = run_moves ms (apply m a)

abbrev pub AreDistinct : List IdText → Type 0
AreDistinct [] = Unit {0}
AreDistinct (t ∷ ts) = (is_in t ts ≡ false) × AreDistinct ts

is_in-without :
    (t u : IdText) (ts : List IdText) → is_in t ts ≡ false → is_in t (without u ts) ≡ false
unfolding without
is_in-without t u [] h = refl
is_in-without t u (v ∷ ts) h = ground (arith, is_in-without t u ts)

without-AreDistinct : (u : IdText) (ts : List IdText) → AreDistinct ts → AreDistinct (without u ts)
unfolding without
without-AreDistinct u [] h = tt
without-AreDistinct u (t ∷ ts) h =
    let rest = without-AreDistinct u ts h.1 in
    if_ind AreDistinct _ (without u ts) (t ∷ without u ts) rest (is_in-without t u ts h.0, rest)

-- The set is the running calls, and each incident has one at most.
pub record IsTidy (a : Agent) : Type 0 where
  pub same : a.running ≡ a.in_progress
  pub distinct : AreDistinct a.in_progress

begin-IsTidy : (t : Option IdText) (a : Agent) → IsTidy a → IsTidy (begin t a)
unfolding begin
begin-IsTidy none a h = h
begin-IsTidy (some t) a h = elim (Bool-cases (is_in t a.in_progress)) [
  | inl busy ↦ rw busy h
  | inr free ↦ rw free (record { same = ap (◌∷◌ t) h.same; distinct = (free, h.distinct) })
]

finish-IsTidy : (t : IdText) (a : Agent) → IsTidy a → IsTidy (finish t a)
unfolding finish
finish-IsTidy t a h = record {
  same = ap (without t) h.same;
  distinct = without-AreDistinct t a.in_progress h.distinct;
}

-- Whatever the order in which triggers arrive and calls end, the agent never diagnoses an incident twice
-- at once, and the set of incidents in progress is the calls that run, provided this held before.
pub run_moves-IsTidy : (ms : List Move) (a : Agent) → IsTidy a → IsTidy (run_moves ms a)
unfolding run_moves apply
run_moves-IsTidy [] a h = h
run_moves-IsTidy (triggers t ∷ ms) a h = run_moves-IsTidy ms (begin t a) (begin-IsTidy t a h)
run_moves-IsTidy (ends t ∷ ms) a h = run_moves-IsTidy ms (finish t a) (finish-IsTidy t a h)

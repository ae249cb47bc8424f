-- ===== src/Tests/Diagnosing.antt =====
-- The Root-Cause Agent.
use processguard_ai.Diagnosis.InFlight.{Move, triggers, ends, run_moves, IsTidy, run_moves-IsTidy}
use processguard_ai.Diagnosis.Recorded.{diagnose-IsRecorded, IsRecorded}
use processguard_ai.Incident.{opened}
use processguard_ai.Tests.Samples.{incident, world}
use processguard_ai.Db.{decision_view, uuid_text, DecisionView, get_incident_for_decision}
use processguard_ai.Diagnosis.{
  invalid_answer, valid_answer, put_history, put, put_all, first_named, validate_point, diagnose,
  cited_points, invalid_points, judge_points, sensor_citation, parse_and_validate, CitedPoint,
  Evidence, Reading,
}
use processguard_ai.Diagnosis.Grounded.{parse_and_validate-IsGrounded, IsGrounded}
use processguard_ai.Base.{
  none, Result, ok, map, contains_text, lower, ℕ, ◌≤◌, ◌≡◌, refl, ◌≢◌, ◌⊎◌, true, false, some, List,
  [], ◌∷◌, ◌==◌, if◌then◌else◌, All, Text, codes,
}

abbrev evidence : Evidence
evidence = record {
  sensor_types = codes "flow_rate" ∷ [];
  sop_ids = codes "SOP-14" ∷ [];
  history_refs = (codes "HIST-2", codes "h2") ∷ [];
}

abbrev cited_point : Text
cited_point = codes "Flow rate is low [sensor reading]"

abbrev good : Reading
good = record {
  insufficient = false;
  first_line = codes "Most likely cause: bearing wear (confidence 87%)";
  hypothesis = some (codes "bearing wear");
  confidence = some 87;
  points = cited_point ∷ [];
}

abbrev uncited : Reading
uncited = record good { points = codes "It feels broken" ∷ [] }

abbrev sure : ℕ
sure = 87

abbrev good_citation : CitedPoint
good_citation = record {
  citation = record { citation_kind = sensor_citation; ref = codes "flow_rate" };
  point = cited_point;
}

parse_good :
    parse_and_validate good evidence ≡ valid_answer (codes "bearing wear") 87 (good_citation ∷ [])
unfolding parse_and_validate judge_points cited_points invalid_points validate_point first_named
    put_all put put_history lower contains_text
parse_good = refl

parse_uncited : parse_and_validate uncited evidence ≡ invalid_answer
unfolding parse_and_validate judge_points cited_points invalid_points validate_point first_named
    put_all put put_history lower contains_text
parse_uncited = refl

parse_and_validate-IsGrounded_example :
    ((false ≡ true)
      × (codes "bearing wear" ≡ good.first_line)
      × (sure ≡ 0)
      × (good_citation ∷ [] ≡ []))
    ⊎ ((good.hypothesis ≡ some (codes "bearing wear"))
        × All (IsGrounded evidence) (good_citation ∷ [])
        × (good_citation ∷ [] ≢ [])
        × (map (λ (p : CitedPoint). p.point) (good_citation ∷ []) ≡ good.points)
        × (sure ≤ 100))
parse_and_validate-IsGrounded_example =
    parse_and_validate-IsGrounded evidence good (codes "bearing wear") 87 (good_citation ∷ [])
      parse_good

-- The first answer cites nothing, the second one does.
abbrev second_try : ℕ → Result Reading
second_try n = if n == 1 then ok uncited else ok good

abbrev dumps : List CitedPoint → Text
dumps cited = codes "[]"

diagnose-IsRecorded_example :
    (after : DecisionView) × (get_incident_for_decision
        (uuid_text 1)
        (diagnose 3 dumps second_try (λ n. 5) (uuid_text 1) evidence (world opened)).1.db
      ≡ some after)
    × IsRecorded 2 dumps second_try (λ n. 5) evidence (decision_view (incident opened)) after
unfolding get_incident_for_decision
diagnose-IsRecorded_example =
    diagnose-IsRecorded 2 dumps second_try (λ n. 5) 1 evidence (world opened)
      (decision_view (incident opened)) refl

-- The same incident triggers twice, and its one call ends.
abbrev double_trigger : List Move
double_trigger =
    triggers (some (uuid_text 1))
    ∷ triggers (some (uuid_text 1))
    ∷ triggers none
    ∷ ends (uuid_text 1)
    ∷ triggers (some (uuid_text 1))
    ∷ []

run_moves-IsTidy_example :
    IsTidy (run_moves double_trigger (record { in_progress = []; running = [] }))
run_moves-IsTidy_example =
    run_moves-IsTidy double_trigger (record { in_progress = []; running = [] })
      (record { same = refl; distinct = tt })

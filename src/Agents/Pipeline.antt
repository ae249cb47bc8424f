-- ===== src/Agents/Pipeline.antt =====
-- The pipeline from the risk assessment to the gate.
use processguard_ai.Agents.Gate.{routed_status-StatusFor, StatusFor}
use processguard_ai.Agents.Routing.{apply_hitl_gate-same, Raises, recommend-decision}
use processguard_ai.Db.Lookup.{find-update}
use processguard_ai.Agents.Orchestrate.{expected_status, apply_hitl_gate}
use processguard_ai.World.{World}
use processguard_ai.Agents.Recommend.{recommend, recommendation_handle, Recommendation}
use processguard_ai.Risk.{RiskConfig}
use processguard_ai.Incident.{
  Incident, risk_assessed, Consequence, Severity, SensorEntry, Uuid, Float,
}
use processguard_ai.Agents.Assess.{assess, RiskOutcome, risk_handle}
use processguard_ai.Db.{
  diagnosis_of, on_row, decision_view, find_incident, uuid_text, Db, statements,
  save_risk_assessment, get_incident_diagnosis_state, DecisionView, get_incident_for_decision,
  DiagnosisState,
}
use processguard_ai.Base.{
  ◌⊎◌, err, Error, Result, some-injective, ℕ, suc, ◌≡◌, refl, ap, inl, inr, Option, none, some,
  List, arith, Option-cases, Text, ok,
}

-- An incident that the decision endpoints find has a diagnosis state too.
diagnosis-found :
    (u : Uuid) (db : Db) (view : DecisionView)
    → get_incident_for_decision (uuid_text u) db ≡ some view
    → (state : DiagnosisState) × (get_incident_diagnosis_state (uuid_text u) db ≡ some state)
unfolding get_incident_for_decision get_incident_diagnosis_state
diagnosis-found u db view e = elim (Option-cases (find_incident u db.incidents)) [
  | inl missing ↦ absurd (ground arith)
  | inr (i, found) ↦ rw (found, get_incident_diagnosis_state) (diagnosis_of i, refl)
]

decision-save_risk_assessment :
    (u : Uuid) (s : Severity) (c : List Consequence) (level required : ℕ) (db : Db)
    (view : DecisionView)
    → get_incident_for_decision (uuid_text u) db ≡ some view
    → get_incident_for_decision
        (uuid_text u)
        (save_risk_assessment (uuid_text u) s c level required db).1
      ≡ some (record view {
        status = risk_assessed;
        risk_severity = some s;
        hitl_level = some level;
        required_approval_level = some required;
      })
unfolding get_incident_for_decision save_risk_assessment statements
decision-save_risk_assessment u s c level required db view e =
    elim (Option-cases (find_incident u db.incidents)) [
      | inl missing ↦ absurd (ground arith)
      | inr (i, found) ↦
          let assessed : Incident → Incident = λ r. record r {
            risk_severity = some s;
            consequences = some c;
            hitl_level = some level;
            required_approval_level = some required;
            risk_assessed_at = some db.clock;
            status = risk_assessed;
            updated_at = db.clock;
          } in
          let once = find-update u assessed (λ r. refl) db.incidents i found in
          let seen : decision_view i ≡ view =
            some-injective _ view (rw (found, get_incident_for_decision) at e) in
          rw (found, on_row)
            (rw (once, get_incident_for_decision)
              (ap
                (λ (v : DecisionView). some (record v {
                  status = risk_assessed;
                  risk_severity = some s;
                  hitl_level = some level;
                  required_approval_level = some required;
                }))
                seen))
    ]

-- The assessment of an incident that exists goes through, with one level for the routing and for the
-- approval.
risk_handle-decision :
    (fdiv : Float → Float → Float) (cfg : RiskConfig) (u : Uuid) (given : List SensorEntry)
    (w : World) (view : DecisionView)
    → get_incident_for_decision (uuid_text u) w.db ≡ some view
    → let (out, after) = risk_handle fdiv cfg (uuid_text u) given w in
      (r : RiskOutcome) × (out ≡ ok r)
      × (get_incident_for_decision (uuid_text u) after.db
          ≡ some (record view {
            status = risk_assessed;
            risk_severity = some r.severity;
            hitl_level = some r.hitl_level;
            required_approval_level = some r.hitl_level;
          }))
unfolding risk_handle
risk_handle-decision fdiv cfg u given w view e =
    let (state, found) = diagnosis-found u w.db view e in
    let r = assess fdiv cfg state given in
    rw (found, risk_handle)
      (
        r,
        refl,
        decision-save_risk_assessment u r.severity r.consequences r.hitl_level r.hitl_level w.db
            view e,
      )

-- A match on a value that is there.
match-some :
    {A B : Type 0} (o : Option A) (a : A) (x y : B)
    → o ≡ some a
    → (elim o [ none ↦ x | some b ↦ y ]) ≡ y
match-some none a x y e = cc
match-some (some b) a x y e = refl

module _ (left : ℕ) (plan : DiagnosisState → DecisionView → Result (Text × Text × ℕ))
    (parse : Text → Result Recommendation) where
  recommendation_handle-decision :
      (u : Uuid) (w : World) (view : DecisionView) (state : DiagnosisState) (severity : Severity)
      → get_incident_for_decision (uuid_text u) w.db ≡ some view
      → get_incident_diagnosis_state (uuid_text u) w.db ≡ some state
      → view.risk_severity ≡ some severity
      → recommendation_handle (suc left) plan parse (uuid_text u) w
        ≡ recommend (suc left) plan parse (uuid_text u) state view w
  unfolding recommendation_handle
  recommendation_handle-decision u w view state severity e found s =
      rw (found, recommendation_handle) (rw e (match-some view.risk_severity severity _ _ s))

  -- An incident that exists is assessed. Then either the model or the reading of its text raises, which
  -- the agent then raises too, with the incident left assessed; or recommendation and gate in turn leave it
  -- informed where the assessed level is 1 and awaiting approval where it is 2 or more, whatever the bus
  -- does, and the gate itself has nothing left to do.
  pub recommendation_handle-risk_handle :
      (fdiv : Float → Float → Float) (cfg : RiskConfig) (u : Uuid) (given : List SensorEntry)
      (w : World) (view : DecisionView)
      → get_incident_for_decision (uuid_text u) w.db ≡ some view
      → let (out, assessed) = risk_handle fdiv cfg (uuid_text u) given w in
        let (answer, after) = recommendation_handle (suc left) plan parse (uuid_text u) assessed in
        (r : RiskOutcome) × (final : DecisionView) × (out ≡ ok r)
        × (get_incident_for_decision (uuid_text u) after.db ≡ some final)
        × (((e : Error) × (answer ≡ err e) × Raises plan parse e × (final.status ≡ risk_assessed))
            ⊎ (StatusFor (some r.hitl_level) final.status
                × (apply_hitl_gate (uuid_text u) after ≡ after)))
  unfolding expected_status
  recommendation_handle-risk_handle fdiv cfg u given w view e =
      let assessed = (risk_handle fdiv cfg (uuid_text u) given w).1 in
      let (r, done, seen) = risk_handle-decision fdiv cfg u given w view e in
      let (state, found) = diagnosis-found u assessed.db _ seen in
      let same = recommendation_handle-decision u assessed _ state r.severity seen found refl in
      rw same (elim (recommend-decision left plan parse u state _ assessed seen) [
        | inl (x, raised, why, kept) ↦ (r, _, done, kept, inl (x, raised, why, refl))
        | inr (parsed, routed) ↦ (
          r,
          _,
          done,
          routed,
          inr (
            routed_status-StatusFor (some r.hitl_level),
            apply_hitl_gate-same (uuid_text u) _ _ routed refl,
          ),
        )
      ])

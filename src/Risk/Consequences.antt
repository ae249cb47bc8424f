-- ===== src/Risk/Consequences.antt =====
-- `select_consequences`: the categories whose keywords occur in the hypothesis or in what the
-- sensors report.
use processguard_ai.Incident.{Consequence, SensorEntry}
use processguard_ai.Risk.Config.{RiskConfig}
use processguard_ai.Base.{
  contains_text, lower, text_eq, List, [], ◌∷◌, ◌++◌, if◌then◌else◌, take, keep, is_empty, Text,
  codes,
}

abbrev pub consequence_keywords : List (Text × List Text)
consequence_keywords =
    (
      codes "equipment damage",
      codes "vibration"
          ∷ codes "pump"
          ∷ codes "bearing"
          ∷ codes "impeller"
          ∷ codes "degradation"
          ∷ codes "mechanical"
          ∷ codes "wear"
          ∷ codes "seizure"
          ∷ codes "misalignment"
          ∷ [],
    )
    ∷ (
      codes "production loss",
      codes "flow"
          ∷ codes "temperature"
          ∷ codes "heat rejection"
          ∷ codes "cooling capacity"
          ∷ codes "load"
          ∷ codes "shutdown"
          ∷ codes "throughput"
          ∷ [],
    )
    ∷ (
      codes "chemical imbalance",
      codes "ph"
          ∷ codes "conductivity"
          ∷ codes "chemistry"
          ∷ codes "dosing"
          ∷ codes "biocide"
          ∷ codes "scale"
          ∷ codes "corrosion"
          ∷ codes "inhibitor"
          ∷ [],
    )
    ∷ (
      codes "unplanned shutdown",
      codes "failure"
          ∷ codes "seizure"
          ∷ codes "trip"
          ∷ codes "outage"
          ∷ codes "unplanned"
          ∷ codes "emergency"
          ∷ codes "loss of cooling"
          ∷ codes "loss of heat rejection"
          ∷ [],
    )
    ∷ []

unfoldable pub scan_text : Text → List SensorEntry → Text
scan_text text [] = text
scan_text text (s ∷ sensors) =
    scan_text
      (text
        ++ lower (codes " " ++ s.sensor_type)
        ++ (if is_empty s.reason then [] else lower (codes " " ++ s.reason)))
      sensors

abbrev amplifier : Text → List (Text × Text) → Text → Text
amplifier key [] default = default
amplifier key ((k, v) ∷ rest) default = if text_eq k key then v else amplifier key rest default

abbrev join_comma : List Text → Text
join_comma [] = []
join_comma (t ∷ []) = t
join_comma (t ∷ u ∷ rest) = t ++ codes ", " ++ join_comma (u ∷ rest)

unfoldable pub matching : RiskConfig → Text → List (Text × List Text) → List Consequence
matching cfg text [] = []
matching cfg text ((consequence, keywords) ∷ rest) =
    let hits = keep (λ k. contains_text k text) keywords in
    let others = matching cfg text rest in
    if is_empty hits
    then others
    else record {
      consequence = consequence;
      rationale =
          amplifier consequence cfg.amplifiers (codes "matched on: " ++ join_comma (take 3 hits));
    }
      ∷ others

unfoldable pub select_consequences : Text → List SensorEntry → RiskConfig → List Consequence
unfolding scan_text matching
select_consequences hypothesis sensors cfg =
    matching cfg (scan_text (lower hypothesis) sensors) consequence_keywords

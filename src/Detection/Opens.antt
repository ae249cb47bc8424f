-- ===== src/Detection/Opens.antt =====
-- What the upserts of the Detection Agent leave open.
use processguard_ai.Db.{Db, update_incident, statements}
use processguard_ai.Incident.{Uuid, Incident, Severity, SensorEntry}
use processguard_ai.Detection.Coverage.{any-append}
use processguard_ai.Detection.Persist.{is_open_for, open_incident, upsert_incident, upsert_once}
use processguard_ai.Detection.Single.{IsFolding}
use processguard_ai.Base.{
  if_ind, ℕ, zero, suc, ◌<◌, ◌≡◌, refl, ◌⊎◌, inl, inr, Bool, true, false, some, List, [], ◌∷◌, ◌++◌,
  arith, ◌==◌, if◌then◌else◌, Bool-cases, Option-cases, length, keep, any,
}

-- The equipment has an unresolved incident.
abbrev pub HasOpen : Uuid → List Incident → Type 0
HasOpen e is = any (is_open_for e) is ≡ true

append-HasOpen :
    (e : Uuid) (is js : List Incident) → HasOpen e is ⊎ HasOpen e js → HasOpen e (is ++ js)
append-HasOpen e is js (inl h) = ground (arith, any-append (is_open_for e) is js, h)
append-HasOpen e is js (inr h) = ground (arith, any-append (is_open_for e) is js, h)

update_incident-HasOpen :
    (e u : Uuid) (f : Incident → Incident) (folding : IsFolding f) (is : List Incident)
    → HasOpen e is
    → HasOpen e (update_incident u f is)
update_incident-HasOpen e u f folding [] h = h
update_incident-HasOpen e u f folding (i ∷ is) h =
    let same : is_open_for e (if i.id == u then f i else i) ≡ is_open_for e i =
      if_ind (λ (x : Incident). is_open_for e x ≡ is_open_for e i) (i.id == u) (f i) i
        (rw (folding.same_equipment i, folding.same_status i) refl) refl in
    elim (Bool-cases (is_open_for e i)) [
      | inl here ↦ rw same (rw here refl)
      | inr there ↦ rw same (rw there (update_incident-HasOpen e u f folding is (rw there at h)))
    ]

open_incident-some :
    (e : Uuid) (is : List Incident) (i : Incident) → open_incident e is ≡ some i → HasOpen e is
unfolding open_incident
open_incident-some e [] i h = absurd (ground arith)
open_incident-some e (j ∷ js) i h = elim (Bool-cases (is_open_for e j)) [
  | inl here ↦ rw here refl
  | inr there ↦ rw there (open_incident-some e js i (rw there at h))
]

module _ (site_of : Uuid → Uuid) where
  -- An upsert for any equipment resolves nothing, and the one for `e` leaves an unresolved incident.
  upsert_once-HasOpen :
      (e at_equipment : Uuid) (severity : Severity) (summary : List SensorEntry) (db : Db)
      → HasOpen e db.incidents ⊎ (at_equipment ≡ e)
      → HasOpen e (upsert_once site_of at_equipment severity summary db).1.incidents
  unfolding upsert_once statements
  upsert_once-HasOpen e a severity summary db h =
      elim (Option-cases (open_incident a db.incidents)) [
        | inl none_open ↦
            rw (none_open, upsert_once)
              (append-HasOpen e db.incidents _
                (elim h [ inl there ↦ inl there | inr same ↦ inr (ground (arith, same)) ]))
        | inr (i, known) ↦
            rw (known, upsert_once)
              (update_incident-HasOpen e i.id _
                (record { same_equipment = λ x. refl; same_status = λ x. refl }) db.incidents
                (elim h [
                  | inl there ↦ there
                  | inr same ↦ rw same at (open_incident-some a db.incidents i known)
                ]))
      ]

  -- Any upsert keeps an unresolved incident.
  pub upsert_incident-HasOpen :
      (e : Uuid) (attempts : ℕ) (faults : List Bool) (a : Uuid) (severity : Severity)
      (summary : List SensorEntry) (db : Db)
      → HasOpen e db.incidents
      → HasOpen e (upsert_incident attempts faults site_of a severity summary db).1.incidents
  unfolding upsert_incident
  upsert_incident-HasOpen e zero faults a severity summary db h = h
  upsert_incident-HasOpen e (suc left) [] a severity summary db h =
      upsert_once-HasOpen e a severity summary db (inl h)
  upsert_incident-HasOpen e (suc left) (false ∷ faults) a severity summary db h =
      upsert_once-HasOpen e a severity summary db (inl h)
  upsert_incident-HasOpen e (suc left) (true ∷ faults) a severity summary db h =
      upsert_incident-HasOpen e left faults a severity summary db h

  -- One with more attempts than faults leaves an unresolved incident of its equipment.
  pub upsert_incident-opens :
      (attempts : ℕ) (faults : List Bool) (e : Uuid) (severity : Severity)
      (summary : List SensorEntry) (db : Db)
      → length (keep (λ fault. fault) faults) < attempts
      → HasOpen e (upsert_incident attempts faults site_of e severity summary db).1.incidents
  unfolding upsert_incident
  upsert_incident-opens zero faults e severity summary db few = absurd (omega (arith, few))
  upsert_incident-opens (suc left) [] e severity summary db few =
      upsert_once-HasOpen e e severity summary db (inr refl)
  upsert_incident-opens (suc left) (false ∷ faults) e severity summary db few =
      upsert_once-HasOpen e e severity summary db (inr refl)
  upsert_incident-opens (suc left) (true ∷ faults) e severity summary db few =
      upsert_incident-opens left faults e severity summary db (omega (arith, few))

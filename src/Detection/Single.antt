-- ===== src/Detection/Single.antt =====
-- One unresolved incident for one equipment.
use processguard_ai.Db.{Db, statements, update_incident}
use processguard_ai.Incident.{SensorEntry, Severity, Incident, Uuid}
use processguard_ai.Detection.Persist.{is_open_for, upsert_incident, upsert_once, open_incident}
use processguard_ai.Base.{
  All-imp, if_ind, All-append, ℕ, zero, suc, ◌<◌, ◌≡◌, refl, inl, inr, Bool, true, false, none,
  List, [], ◌∷◌, ◌++◌, arith, ◌==◌, Bool-cases, Option-cases, length, keep, All, ok,
}

-- Two incidents that are not both unresolved incidents of one equipment.
abbrev pub Apart : Incident → Incident → Type 0
Apart i j = is_open_for i.equipment_id i ≡ true → is_open_for i.equipment_id j ≡ false

-- No equipment has two unresolved incidents.
abbrev pub IsSingle : List Incident → Type 0
IsSingle [] = Unit
IsSingle (i ∷ is) = All (Apart i) is × IsSingle is

-- A change that neither the equipment nor the status takes part in.
pub record IsFolding (f : Incident → Incident) : Type 0 where
  pub same_equipment : (i : Incident) → (f i).equipment_id ≡ i.equipment_id
  pub same_status : (i : Incident) → (f i).status ≡ i.status

module _ (u : Uuid) (f : Incident → Incident) (folding : IsFolding f) where
  update-Apart :
      (i : Incident) (is : List Incident)
      → All (Apart i) is
      → All (Apart i) (update_incident u f is)
  update-Apart i [] h = tt
  update-Apart i (j ∷ is) h = (
    if_ind (Apart i) (j.id == u) (f j) j
        (λ e. rw (folding.same_equipment j, folding.same_status j) (h.0 e)) h.0,
    update-Apart i is h.1,
  )

  Apart-change : (i j : Incident) → Apart i j → Apart (f i) j
  Apart-change i j h e =
      rw (folding.same_equipment i) (h (rw (folding.same_equipment i, folding.same_status i) at e))

  update_incident-IsSingle : (is : List Incident) → IsSingle is → IsSingle (update_incident u f is)
  update_incident-IsSingle [] h = tt
  update_incident-IsSingle (i ∷ is) h = (
    if_ind (λ (x : Incident). All (Apart x) (update_incident u f is)) (i.id == u) (f i) i
        (All-imp (Apart i) (Apart (f i)) (λ j. Apart-change i j) (update_incident u f is)
          (update-Apart i is h.0))
        (update-Apart i is h.0),
    update_incident-IsSingle is h.1,
  )

open_incident-none :
    (e : Uuid) (is : List Incident)
    → open_incident e is ≡ none
    → All (λ (i : Incident). is_open_for e i ≡ false) is
unfolding open_incident
open_incident-none e [] h = tt
open_incident-none e (i ∷ is) h = elim (Bool-cases (is_open_for e i)) [
  | inl found ↦ absurd (ground (arith, found))
  | inr other ↦ (other, open_incident-none e is (rw other at h))
]

append-IsSingle :
    (new : Incident) (is : List Incident)
    → All (λ (i : Incident). is_open_for new.equipment_id i ≡ false) is
    → IsSingle is
    → IsSingle (is ++ new ∷ [])
append-IsSingle new [] n h = (tt, tt)
append-IsSingle new (i ∷ is) n h = (
  All-append (Apart i) is (new ∷ []) h.0 (λ e. ground (arith, n.0, e), tt),
  append-IsSingle new is n.1 h.1,
)

upsert_once-IsSingle :
    (site_of : Uuid → Uuid) (e : Uuid) (severity : Severity) (summary : List SensorEntry) (db : Db)
    → IsSingle db.incidents
    → IsSingle (upsert_once site_of e severity summary db).1.incidents
unfolding upsert_once statements
upsert_once-IsSingle site_of e severity summary db h =
    elim (Option-cases (open_incident e db.incidents)) [
      | inl new ↦
          rw (new, upsert_once)
            (append-IsSingle _ db.incidents (open_incident-none e db.incidents new) h)
      | inr (i, known) ↦
          rw (known, upsert_once)
            (update_incident-IsSingle i.id _
              (record { same_equipment = λ x. refl; same_status = λ x. refl }) db.incidents h)
    ]

-- However many attempts fail, an upsert keeps it so that no equipment has two unresolved incidents, and
-- where fewer attempts fail than are made, it returns the id of an incident.
pub upsert_incident-IsSingle :
    (attempts : ℕ) (faults : List Bool) (site_of : Uuid → Uuid) (e : Uuid) (severity : Severity)
    (summary : List SensorEntry) (db : Db)
    → IsSingle db.incidents
    → let (out, after) = upsert_incident attempts faults site_of e severity summary db in
      IsSingle after.incidents
      × (length (keep (λ fault. fault) faults) < attempts → (u : Uuid) × (out ≡ ok u))
unfolding upsert_incident
upsert_incident-IsSingle zero faults site_of e severity summary db h =
    (h, λ few. absurd (omega (arith, few)))
upsert_incident-IsSingle (suc left) [] site_of e severity summary db h =
    (upsert_once-IsSingle site_of e severity summary db h, λ few. (_, refl))
upsert_incident-IsSingle (suc left) (false ∷ faults) site_of e severity summary db h =
    (upsert_once-IsSingle site_of e severity summary db h, λ few. (_, refl))
upsert_incident-IsSingle (suc left) (true ∷ faults) site_of e severity summary db h =
    let (single, enough) = upsert_incident-IsSingle left faults site_of e severity summary db h in
    (single, λ few. enough (omega (arith, few)))

-- ===== src/Db/History.antt =====
-- The inspectable state machine: `IncidentStateHistory` against the status column.

use processguard_ai.Base.{
  All-append, ==_iff, some, Option, ℕ, ◌<◌, ◌≡◌, refl, List, [], ◌∷◌, ◌++◌, All, ◌==◌, Bool-cases,
  Option-cases, Result, inl, inr, if◌then◌else◌, arith,
}
use processguard_ai.Incident.{Actor, Incident, HistoryRow, Uuid, Status, opened}
use processguard_ai.Db.Store.{
  on_row, insert_history, IdText, set_incident, uuid_text, malformed, find_incident, Db,
  update_incident,
}

-- The status that the history tells of an incident, from a given start.
unfoldable pub last_status : Uuid → Status → List HistoryRow → Status
last_status u s [] = s
last_status u s (h ∷ hs) = last_status u (if h.incident == u then h.to_status else s) hs

-- Every incident was opened and then moved as the history says; ids in use lie below the next one.
pub record IsConsistent (db : Db) : Type 0 where
  pub told : All (λ i. last_status i.id opened db.history ≡ i.status) db.incidents
  pub ids_below : All (λ i. i.id < db.next_uuid) db.incidents
  pub history_below : All (λ h. h.incident < db.next_uuid) db.history

last_status-append :
    (u : Uuid) (s : Status) (hs : List HistoryRow) (h : HistoryRow)
    → last_status u s (hs ++ h ∷ []) ≡ (if h.incident == u then h.to_status else last_status u s hs)
unfolding last_status
last_status-append u s [] h = refl
last_status-append u s (g ∷ hs) h =
    last_status-append u (if g.incident == u then g.to_status else s) hs h

-- An update that leaves the ids alone keeps them below any bound.
ids_below-update :
    (u : Uuid) (f : Incident → Incident) (n : ℕ)
    → ((r : Incident) → (f r).id ≡ r.id)
    → (is : List Incident) → All (λ i. i.id < n) is
    → All (λ i. i.id < n) (update_incident u f is)
ids_below-update u f n same [] h = tt
ids_below-update u f n same (i ∷ is) h =
    (ground (arith, same i, h.0), ids_below-update u f n same is h.1)

module _ (u : Uuid) (f : Incident → Incident) (same : (r : Incident) → (f r).id ≡ r.id) where
  -- A move and its history row, written together.
  told-move :
      (s : Status) (hs : List HistoryRow) (h : HistoryRow)
      (moves : (r : Incident) → (f r).status ≡ s)
      → h.incident ≡ u
      → h.to_status ≡ s
      → (is : List Incident) → All (λ i. last_status i.id opened hs ≡ i.status) is
      → All (λ i. last_status i.id opened (hs ++ h ∷ []) ≡ i.status) (update_incident u f is)
  told-move s hs h moves at_u to_s [] t = tt
  told-move s hs h moves at_u to_s (i ∷ is) t = (
    elim (Bool-cases (i.id == u)) [
      | inl e ↦
          rw e
            (ground (arith, last_status-append (f i).id opened hs h, same i, moves i, at_u, to_s))
      | inr e ↦ rw e (ground (arith, last_status-append i.id opened hs h, t.0, at_u, to_s))
    ],
    told-move s hs h moves at_u to_s is t.1,
  )

  -- An update that moves nothing.
  told-keep :
      (hs : List HistoryRow) (stays : (r : Incident) → (f r).status ≡ r.status)
      → (is : List Incident) → All (λ i. last_status i.id opened hs ≡ i.status) is
      → All (λ i. last_status i.id opened hs ≡ i.status) (update_incident u f is)
  told-keep hs stays [] t = tt
  told-keep hs stays (i ∷ is) t = (
    elim (Bool-cases (i.id == u)) [ inl e ↦ rw e (rw (same i, stays i) t.0) | inr e ↦ rw e t.0 ],
    told-keep hs stays is t.1,
  )

find-below :
    {u n : ℕ} {i : Incident} (is : List Incident)
    → All (λ r. r.id < n) is
    → find_incident u is ≡ some i
    → u < n
find-below [] h e = cc
find-below {u} (r ∷ is) h e = elim (Bool-cases (r.id == u)) [
  | inl t ↦ ground (arith, h.0, ==_iff r.id u)
  | inr t ↦ find-below is h.1 (rw t at e)
]

-- UPDATE of the status, and the history row of it.
pub move-IsConsistent :
    (u : Uuid) (f : Incident → Incident) (from : Option Status) (s : Status) (who : Actor) (db : Db)
    → ((r : Incident) → (f r).id ≡ r.id)
    → ((r : Incident) → (f r).status ≡ s)
    → u < db.next_uuid
    → IsConsistent db
    → IsConsistent (insert_history u from s who (set_incident u f db))
unfolding set_incident insert_history
move-IsConsistent u f from s who db same moves below c = record {
  told = told-move u f same s db.history _ moves refl refl db.incidents c.told;
  ids_below = ids_below-update u f db.next_uuid same db.incidents c.ids_below;
  history_below =
      All-append (λ h. h.incident < db.next_uuid) db.history _ c.history_below (below, tt);
}

-- UPDATE of other columns.
pub keep-IsConsistent :
    (u : Uuid) (f : Incident → Incident) (db : Db)
    → ((r : Incident) → (f r).id ≡ r.id)
    → ((r : Incident) → (f r).status ≡ r.status)
    → IsConsistent db
    → IsConsistent (set_incident u f db)
unfolding set_incident
keep-IsConsistent u f db same stays c = record {
  told = told-keep u f same db.history stays db.incidents c.told;
  ids_below = ids_below-update u f db.next_uuid same db.incidents c.ids_below;
  history_below = c.history_below;
}

-- Only the incidents, their history and the next UUID matter.
pub same-IsConsistent :
    (db after : Db)
    → after.incidents ≡ db.incidents
    → after.history ≡ db.history
    → after.next_uuid ≡ db.next_uuid
    → IsConsistent db
    → IsConsistent after
same-IsConsistent db after i h n c = record {
  told = rw (i, h) c.told;
  ids_below = rw (i, n) c.ids_below;
  history_below = rw (h, n) c.history_below;
}

pub on_row-IsConsistent :
    {A : Type 0} (t : IdText) (bad : Result A) (missing : A) (body : ℕ → Incident → Db → A × Db)
    (db : Db)
    → ((u : ℕ) (i : Incident) → u < db.next_uuid → IsConsistent (body u i db).1)
    → IsConsistent db
    → IsConsistent (on_row t bad missing body db).1
unfolding on_row
on_row-IsConsistent (malformed x) bad missing body db keeps c = c
on_row-IsConsistent {A} (uuid_text u) bad missing body db keeps c =
    elim (Option-cases (find_incident u db.incidents)) [
      | inl e ↦ rw (e, on_row) c
      | inr (i, e) ↦ rw (e, on_row) (keeps u i (find-below db.incidents c.ids_below e))
    ]

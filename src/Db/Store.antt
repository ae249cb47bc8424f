-- ===== src/Db/Store.antt =====
-- The tables as lists, newest row last, and the SQL statements that the writes are made of. A
-- transaction is one function: what it wrote is in the store it returns.
use processguard_ai.Base.{
  ok, Result, ℕ, Bool, false, Option, none, some, List, [], ◌∷◌, ◌++◌, ◌==◌, if◌then◌else◌,
}
use processguard_ai.Incident.{
  Incident, HistoryRow, ApprovalRow, AuditRow, ActionRow, LearnedRow, Uuid, Status, Actor,
}

pub record Db : Type 0 where
  pub incidents : List Incident
  pub history : List HistoryRow
  pub approvals : List ApprovalRow
  pub audit : List AuditRow
  pub actions : List ActionRow
  pub historical : List LearnedRow
  -- What `_now()` returns, and the value that `_uuid()` returns next: no UUID is drawn twice.
  pub clock : ℕ
  pub next_uuid : ℕ

-- An id as it comes in: the text of a UUID, or one that `_parse_uuid` refuses with a ValueError.
pub data IdText : Type 0 where
  uuid_text : Uuid → IdText
  malformed : ℕ → IdText

abbrev pub parse_uuid : IdText → Option Uuid
parse_uuid (uuid_text u) = some u
parse_uuid (malformed t) = none

abbrev pub id_eq : IdText → IdText → Bool
id_eq (uuid_text u) (uuid_text v) = u == v
id_eq (malformed s) (malformed t) = s == t
id_eq _ _ = false

-- SELECT … FROM "Incidents" WHERE "Id" = $1
abbrev pub find_incident : Uuid → List Incident → Option Incident
find_incident u [] = none
find_incident u (i ∷ is) = if i.id == u then some i else find_incident u is

-- UPDATE "Incidents" SET … WHERE "Id" = $1
abbrev pub update_incident : Uuid → (Incident → Incident) → List Incident → List Incident
update_incident u f [] = []
update_incident u f (i ∷ is) = (if i.id == u then f i else i) ∷ update_incident u f is

unfoldable pub set_incident : Uuid → (Incident → Incident) → Db → Db
set_incident u f db = record db { incidents = update_incident u f db.incidents }

unfoldable pub insert_history : Uuid → Option Status → Status → Actor → Db → Db
insert_history u from to who db = record db {
  history =
      db.history
      ++ record {
        incident = u;
        from_status = from;
        to_status = to;
        actor = who;
        changed_at = db.clock;
      }
        ∷ [];
}

unfoldable pub insert_audit : AuditRow → Db → Db
insert_audit row db = record db { audit = db.audit ++ row ∷ [] }

-- A transaction that begins by UPDATE … WHERE "Id" = $1 RETURNING …: `bad` is the outcome for an id
-- that does not parse, `missing` what is returned, with nothing written, if there is no such row.
unfoldable pub on_row :
    {A : Type 0} → IdText → Result A → A → (ℕ → Incident → Db → A × Db) → Db → Result A × Db
on_row t bad missing body db = elim (parse_uuid t) [
  | none ↦ (bad, db)
  | some u ↦ elim (find_incident u db.incidents) [
    | none ↦ (ok missing, db)
    | some i ↦ let (a, after) = body u i db in (ok a, after)
  ]
]

-- For a run: opens the statements.
unfoldable pub statements : Unit {0}
unfolding set_incident insert_history insert_audit on_row
statements = tt

-- ===== src/Action/Deliver.antt =====
-- `_on_incident_approved`: the subscriber of pgai.incident_approved.
use processguard_ai.World.{World}
use processguard_ai.Action.Handle.{handle, Approval}
use processguard_ai.Cmms.{Server}
use processguard_ai.Db.{id_eq, IdText}
use processguard_ai.Base.{ℕ, Bool, not, List, ◌∷◌, if◌then◌else◌, keep, any}

abbrev pub is_running : IdText → List IdText → Bool
is_running t ts = any (λ u. id_eq u t) ts

module _ (server : Server) (attempts : ℕ) where
  -- The set of incidents in flight and the world behind one delivery. `handle` raises nothing, and
  -- `finally` discards the id.
  unfoldable pub on_incident_approved : Approval → List IdText × World → List IdText × World
  on_incident_approved a (in_flight, w) =
      let t = a.incident_id in
      if is_running t in_flight
      then (in_flight, w)
      else (keep (λ u. not (id_eq u t)) (t ∷ in_flight), (handle server attempts a w).1)

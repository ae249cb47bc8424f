-- ===== src/Tests/Store.antt =====
-- The store.
use processguard_ai.Incident.{action_taken, approved, awaiting_approval}
use processguard_ai.Db.{malformed, uuid_text}
use processguard_ai.Tests.Samples.{plant}
use processguard_ai.Db.Log.{
  resolved_manually, result_saved, apply_writes-IsConsistent, approval_recorded, apply_writes,
  Write,
}
use processguard_ai.Db.History.{last_status, IsConsistent}
use processguard_ai.Base.{refl, true, none, some, List, [], ◌∷◌, arith, codes}

plant-IsConsistent : IsConsistent (plant awaiting_approval)
unfolding last_status
plant-IsConsistent = record {
  told = (refl, tt);
  ids_below = (omega arith, tt);
  history_below = (omega arith, tt);
}

abbrev writes : List Write
writes =
    approval_recorded (uuid_text 1) approved (codes "manager") (some 2) none
    ∷ result_saved (uuid_text 1) action_taken true
    ∷ resolved_manually (malformed 3) (codes "manager")
    ∷ []

apply_writes-IsConsistent_example : IsConsistent (apply_writes writes (plant awaiting_approval))
apply_writes-IsConsistent_example =
    apply_writes-IsConsistent writes (plant awaiting_approval) (tt, (tt, (tt, tt)))
      plant-IsConsistent

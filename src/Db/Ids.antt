-- ===== src/Db/Ids.antt =====
-- Sets of ids, as the agents keep them for the incidents in flight.
use processguard_ai.Db.Store.{malformed, uuid_text, id_eq, IdText}
use processguard_ai.Base.{==_refl, ◌≡◌, refl, true, false, not, List, [], ◌∷◌, arith, keep, any}

pub id_eq_refl : (t : IdText) → id_eq t t ≡ true
id_eq_refl (uuid_text u) = ==_refl u
id_eq_refl (malformed x) = ==_refl x

-- Discarding an id that is not in the set.
pub keep_absent :
    (t : IdText) (ts : List IdText)
    → any (λ u. id_eq u t) ts ≡ false
    → keep (λ u. not (id_eq u t)) ts ≡ ts
keep_absent t [] h = refl
keep_absent t (u ∷ ts) h = ground (arith, keep_absent t ts)

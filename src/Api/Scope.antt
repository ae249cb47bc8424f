-- ===== src/Api/Scope.antt =====
-- The readers see their own site alone, and what they see agrees.
use processguard_ai.Db.{fetch, IdText, Db}
use processguard_ai.Security.{
  uuid_str, ensure_site, principal_role, has_role, principal_site, Principal, RbacPolicy,
  ensure_role,
}
use processguard_ai.Incident.{Uuid, Incident, Status}
use processguard_ai.Api.Reads.{
  get_incident_by_id, list_incidents, get_incidents, skip, is_listed, newest_first, insert_newest,
}
use processguard_ai.Base.{
  is_empty, length-take, All-take, false, text_eq_sound, lower, All-imp, if_ind, ℕ, zero, suc, ◌≤◌,
  ◌≡◌, sym, ap, inl, inr, true, Option, none, some, List, [], ◌∷◌, arith, leb, Bool-cases,
  Option-cases, length, keep, All, Text, ok,
}

insert_newest-All :
    (P : Incident → Type 0) (i : Incident) (is : List Incident)
    → P i
    → All P is
    → All P (insert_newest i is)
unfolding insert_newest
insert_newest-All P i [] p h = (p, tt)
insert_newest-All P i (x ∷ xs) p h =
    if_ind (All P) (leb x.detected_at i.detected_at) _ _ (p, h)
      (h.0, insert_newest-All P i xs p h.1)

newest_first-All : (P : Incident → Type 0) (is : List Incident) → All P is → All P (newest_first is)
unfolding newest_first
newest_first-All P [] h = tt
newest_first-All P (i ∷ is) h =
    insert_newest-All P i (newest_first is) h.0 (newest_first-All P is h.1)

skip-All : (P : Incident → Type 0) (n : ℕ) (is : List Incident) → All P is → All P (skip n is)
skip-All P zero is h = h
skip-All P (suc n) [] h = tt
skip-All P (suc n) (i ∷ is) h = skip-All P n is h.1

keep-is_listed :
    (status : Option Status) (u : Uuid) (is : List Incident)
    → All (λ (i : Incident). i.site_id ≡ u) (keep (is_listed status (some u)) is)
keep-is_listed status u [] = tt
keep-is_listed status u (i ∷ is) = elim (Bool-cases (is_listed status (some u) i)) [
  | inl listed ↦ rw listed (site_of status listed, keep-is_listed status u is)
  | inr other ↦ rw other (keep-is_listed status u is)
]
  where
    site_of : (s : Option Status) → is_listed s (some u) i ≡ true → i.site_id ≡ u
    site_of none h = ground arith
    site_of (some s) h = ground arith

module _ (parse_site : Text → Option Uuid) where
  list_incidents-own_site :
      (status : Option Status) (site : Text) (limit offset : ℕ) (db : Db)
      → is_empty site ≡ false
      → let page = (list_incidents parse_site status site limit offset db).0 in
        All (λ (i : Incident). parse_site site ≡ some i.site_id) page × (length page ≤ limit)
  unfolding list_incidents
  list_incidents-own_site status [] limit offset db named = absurd (ground arith)
  list_incidents-own_site status (c ∷ t) limit offset db named =
      elim (Option-cases (parse_site (c ∷ t))) [
        | inl bad ↦ rw (bad, list_incidents) (tt, omega arith)
        | inr (u, parsed) ↦
            let passing = newest_first (keep (is_listed status (some u)) db.incidents) in
            let own =
              newest_first-All (λ (i : Incident). i.site_id ≡ u) _
                (keep-is_listed status u db.incidents) in
            rw (parsed, list_incidents)
              (
                All-imp _ _ (λ i at_u. ap (λ (x : Uuid). some x) (sym at_u)) _
                    (All-take (λ (i : Incident). i.site_id ≡ u) limit (skip offset passing)
                      (skip-All (λ (i : Incident). i.site_id ≡ u) offset passing own)),
                length-take limit (skip offset passing),
              )
      ]

  -- A page that the list endpoint answers a caller whose site is not empty with holds incidents of that
  -- site alone, no more of them than the limit, and the caller's role may read incidents.
  pub get_incidents-own_site :
      (policy : RbacPolicy) (p : Principal) (status : Option Status) (site_id : Option Text)
      (limit offset : ℕ) (db : Db) (items : List Incident) (total : ℕ)
      → is_empty (principal_site p) ≡ false
      → get_incidents parse_site policy p status site_id limit offset db ≡ ok (items, total)
      → All (λ (i : Incident). parse_site (principal_site p) ≡ some i.site_id) items
        × (length items ≤ limit)
        × (has_role (principal_role p) policy.incident_read_roles ≡ true)
  unfolding get_incidents ensure_role
  get_incidents-own_site policy p status site_id limit offset db items total named h =
      let allowed : has_role (principal_role p) policy.incident_read_roles ≡ true = ground arith in
      let page : list_incidents parse_site status (principal_site p) limit offset db
          ≡ (items, total) =
        ground arith in
      let (own, bounded) =
        list_incidents-own_site status (principal_site p) limit offset db named in
      (rw page at own, rw page at bounded, allowed)

-- An incident that a detail endpoint answers with belongs to the caller's site, letter case aside.
pub get_incident_by_id-own_site :
    (t : IdText) (p : Principal) (db : Db) (i : Incident)
    → get_incident_by_id t p db ≡ ok i
    → lower (uuid_str i.site_id) ≡ lower (principal_site p)
unfolding get_incident_by_id ensure_site
get_incident_by_id-own_site t p db i h = elim (Option-cases (fetch t db)) [
  | inl missing ↦ absurd (ground arith)
  | inr (j, found) ↦
      let same : j ≡ i = ground arith in text_eq_sound _ _ (rw (sym same) (ground arith))
]

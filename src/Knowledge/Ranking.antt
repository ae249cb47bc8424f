-- ===== src/Knowledge/Ranking.antt =====
-- What `find_similar_history` selects of the past incidents.
use mathlib.Core.List.{Perm}
use mathlib.Core.List.Perm
use processguard_ai.Knowledge.{
  not_json, HistoricalRow, Scored, score_row, score_rows, ranks_below, insert_ranked, sort_ranked,
  match_of, history_row_to_dict, to_dicts, find_similar_history, is_match,
}
use processguard_ai.Base.{
  length-take, All-take, All-imp, Bool, if_ind, ℕ, zero, suc, ◌≤◌, ◌≡◌, refl, ap, ◌≢◌, ◌⊎◌, inl,
  inr, true, false, List, [], ◌∷◌, ◌++◌, map, arith, Bool-cases, length, take, is_empty, All, Text,
  ok,
}

-- The first may stand before the second: one of the same equipment before every other, and within either
-- kind the one with at least as many shared symptoms.
abbrev pub NotBelow : Scored → Scored → Type 0
NotBelow a b = (b.same ≡ true → a.same ≡ true) × (a.same ≡ b.same → b.shared ≤ a.shared)

abbrev pub IsRanked : List Scored → Type 0
IsRanked [] = Unit {0}
IsRanked (x ∷ xs) = All (NotBelow x) xs × IsRanked xs

NotBelow-above : (a b : Scored) → ranks_below a b ≡ false → NotBelow a b
unfolding ranks_below
NotBelow-above a b h = (λ k. ground arith, λ k. ground arith)

NotBelow-below : (a b : Scored) → ranks_below a b ≡ true → NotBelow b a
unfolding ranks_below
NotBelow-below a b h = (λ k. ground arith, λ k. ground arith)

shared_trans :
    (p q r : Bool) (k l m : ℕ)
    → (q ≡ true → p ≡ true)
    → (r ≡ true → q ≡ true)
    → (p ≡ q → l ≤ k)
    → (q ≡ r → m ≤ l)
    → p ≡ r
    → m ≤ k
shared_trans true true r k l m qp rq pq qr pr = omega (arith, pq refl, qr pr)
shared_trans true false true k l m qp rq pq qr pr = absurd (ground (arith, rq refl))
shared_trans true false false k l m qp rq pq qr pr = absurd (ground (arith, pr))
shared_trans false true r k l m qp rq pq qr pr = absurd (ground (arith, qp refl))
shared_trans false false r k l m qp rq pq qr pr = omega (arith, pq refl, qr pr)

NotBelow-trans : (a b c : Scored) → NotBelow a b → NotBelow b c → NotBelow a c
NotBelow-trans a b c (ab, ab_shared) (bc, bc_shared) = (
  λ k. ab (bc k),
  λ k. shared_trans a.same b.same c.same a.shared b.shared c.shared ab bc ab_shared bc_shared k,
)

All-insert_ranked :
    (P : Scored → Type 0) (s : Scored) (xs : List Scored)
    → P s
    → All P xs
    → All P (insert_ranked s xs)
unfolding insert_ranked
All-insert_ranked P s [] p h = (p, tt)
All-insert_ranked P s (x ∷ xs) p h =
    if_ind (All P) (ranks_below s x) _ _ (h.0, All-insert_ranked P s xs p h.1) (p, h)

All-sort_ranked : (P : Scored → Type 0) (xs : List Scored) → All P xs → All P (sort_ranked xs)
unfolding sort_ranked
All-sort_ranked P [] h = tt
All-sort_ranked P (x ∷ xs) h = All-insert_ranked P x (sort_ranked xs) h.0 (All-sort_ranked P xs h.1)

insert_ranked-IsRanked :
    (s : Scored) (xs : List Scored) → IsRanked xs → IsRanked (insert_ranked s xs)
unfolding insert_ranked
insert_ranked-IsRanked s [] h = (tt, tt)
insert_ranked-IsRanked s (x ∷ xs) h = elim (Bool-cases (ranks_below s x)) [
  | inl below ↦ rw below (
    All-insert_ranked (NotBelow x) s xs (NotBelow-below s x below) h.0,
    insert_ranked-IsRanked s xs h.1,
  )
  | inr above ↦ rw above (
    (
      NotBelow-above s x above,
      All-imp (NotBelow x) (NotBelow s) (λ y. NotBelow-trans s x y (NotBelow-above s x above)) xs
          h.0,
    ),
    h,
  )
]

sort_ranked-IsRanked : (xs : List Scored) → IsRanked (sort_ranked xs)
unfolding sort_ranked
sort_ranked-IsRanked [] = tt
sort_ranked-IsRanked (x ∷ xs) = insert_ranked-IsRanked x (sort_ranked xs) (sort_ranked-IsRanked xs)

insert_ranked-perm : (s : Scored) (xs : List Scored) → Perm (insert_ranked s xs) (s ∷ xs)
unfolding insert_ranked
insert_ranked-perm s [] = Perm.refl (s ∷ [])
insert_ranked-perm s (x ∷ xs) =
    if_ind (λ l. Perm l (s ∷ x ∷ xs)) (ranks_below s x) _ _
      (Perm.trans (Perm.cons x (insert_ranked-perm s xs)) (Perm.swap s x xs))
      (Perm.refl (s ∷ x ∷ xs))

sort_ranked-perm : (xs : List Scored) → Perm (sort_ranked xs) xs
unfolding sort_ranked
sort_ranked-perm [] = Perm.refl []
sort_ranked-perm (x ∷ xs) =
    Perm.trans (insert_ranked-perm x (sort_ranked xs)) (Perm.cons x (sort_ranked-perm xs))

abbrev drop : ℕ → List Scored → List Scored
drop zero xs = xs
drop (suc n) [] = []
drop (suc n) (x ∷ xs) = drop n xs

take-drop : (n : ℕ) (xs : List Scored) → take n xs ++ drop n xs ≡ xs
take-drop zero xs = refl
take-drop (suc n) [] = refl
take-drop (suc n) (x ∷ xs) = ap (◌∷◌ x) (take-drop n xs)

take_full : (n : ℕ) (xs : List Scored) → (drop n xs ≡ []) ⊎ (length (take n xs) ≡ n)
take_full zero xs = inr refl
take_full (suc n) [] = inl refl
take_full (suc n) (x ∷ xs) = elim (take_full n xs) [
  | inl empty ↦ inl empty
  | inr full ↦ inr (omega (arith, full))
]

All-drop : (P : Scored → Type 0) (n : ℕ) (xs : List Scored) → All P xs → All P (drop n xs)
All-drop P zero xs h = h
All-drop P (suc n) [] h = tt
All-drop P (suc n) (x ∷ xs) h = All-drop P n xs h.1

take-IsRanked : (n : ℕ) (xs : List Scored) → IsRanked xs → IsRanked (take n xs)
take-IsRanked zero xs h = tt
take-IsRanked (suc n) [] h = tt
take-IsRanked (suc n) (x ∷ xs) h = (All-take (NotBelow x) n xs h.0, take-IsRanked n xs h.1)

take-NotBelow :
    (n : ℕ) (xs : List Scored) → IsRanked xs → All (λ k. All (NotBelow k) (drop n xs)) (take n xs)
take-NotBelow zero xs h = tt
take-NotBelow (suc n) [] h = tt
take-NotBelow (suc n) (x ∷ xs) h = (All-drop (NotBelow x) n xs h.0, take-NotBelow n xs h.1)

abbrev pub IsReadable : HistoricalRow → Type 0
IsReadable r = r.symptoms ≢ not_json

history_row_readable :
    (equipment : Text) (r : HistoricalRow)
    → IsReadable r
    → history_row_to_dict equipment r ≡ ok (match_of equipment r)
unfolding history_row_to_dict
history_row_readable equipment r h = ground arith

abbrev HasReadable : Scored → Type 0
HasReadable s = IsReadable s.row

to_dicts_readable :
    (equipment : Text) (ss : List Scored)
    → All HasReadable ss
    → to_dicts equipment ss ≡ ok (map (λ s. match_of equipment s.row) ss)
unfolding to_dicts
to_dicts_readable equipment [] h = refl
to_dicts_readable equipment (s ∷ ss) h =
    let here = history_row_readable equipment s.row h.0 in
    let rest = to_dicts_readable equipment ss h.1 in rw (here, to_dicts) (rw (rest, to_dicts) refl)

score_rows-HasReadable :
    (equipment : Text) (types : List Text) (rows : List HistoricalRow)
    → All IsReadable rows
    → All HasReadable (score_rows equipment types rows)
unfolding score_rows score_row
score_rows-HasReadable equipment types [] h = tt
score_rows-HasReadable equipment types (r ∷ rows) h =
    let rest = score_rows-HasReadable equipment types rows h.1 in
    if_ind (All HasReadable) (is_match (score_row equipment types r)) _ _ (h.0, rest) rest

-- The selection is the best of the matching rows: with readable symptoms everywhere, the rows that match
-- (by equipment or by a shared symptom) fall into those that are returned and those that are not; at most
-- `limit` are returned, and all of them if there are fewer; they stand in order of rank (the same
-- equipment first, then more shared symptoms), and none that is left out ranks above one returned.
pub find_similar_history-IsRanked :
    (rows : List HistoricalRow) (equipment : Text) (types : List Text) (limit : ℕ)
    → is_empty types ≡ false
    → All IsReadable rows
    → (kept dropped : List Scored) × (find_similar_history rows equipment types limit
        ≡ ok (map (λ s. match_of equipment s.row) kept))
      × Perm (kept ++ dropped) (score_rows equipment types rows)
      × (length kept ≤ limit)
      × ((dropped ≡ []) ⊎ (length kept ≡ limit))
      × IsRanked kept
      × All (λ k. All (NotBelow k) dropped) kept
unfolding find_similar_history
find_similar_history-IsRanked rows equipment types limit asked readable =
    let found = score_rows equipment types rows in
    let ranked = sort_ranked found in
    let order = sort_ranked-IsRanked found in
    let good =
      All-sort_ranked HasReadable found (score_rows-HasReadable equipment types rows readable) in
    (
      take limit ranked,
      drop limit ranked,
      rw asked (
          to_dicts_readable equipment (take limit ranked) (All-take HasReadable limit ranked good)),
      rw (take-drop limit ranked) (sort_ranked-perm found),
      length-take limit ranked,
      take_full limit ranked,
      take-IsRanked limit ranked order,
      take-NotBelow limit ranked order,
    )

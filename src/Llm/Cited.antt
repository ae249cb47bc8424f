-- ===== src/Llm/Cited.antt =====
-- The offline analysis makes nothing up.
use mathlib.Core.Path.{subst}
use mathlib.Core.Option.{some-injective}
use processguard_ai.Agents.{splitlines}
use processguard_ai.Llm.Analysis.{
  lines_with, fake_cause, choose, bullet, chosen_point, fake_points, first_of,
}
use processguard_ai.Base.{
  length-take, All-take, All-keep, All-append, length-append, strip, contains_text, starts_with,
}
use processguard_ai.Base.{
  ◌≤◌, ◌≡◌, refl, inl, inr, some, List, [], ◌∷◌, ◌++◌, map, arith, Option-cases, length, take, keep,
  All, Text, codes,
}

-- A bullet about a line of which `P` holds.
abbrev pub IsAbout : (Text → Type 0) → Text → Type 0
IsAbout P point = (line tag : Text) × P line × (point ≡ bullet tag line)

module _ (P : Text → Type 0) where
  first_of-All : (lines : List Text) (l : Text) → first_of lines ≡ some l → All P lines → P l
  first_of-All [] l same h = absurd (ground (arith, same))
  first_of-All (x ∷ xs) l same h = subst P (some-injective x l same) h.0

  chosen_point-IsAbout :
      (tag part : Text) (lines : List Text)
      → All P lines
      → All (IsAbout P) (chosen_point tag (choose part lines))
        × (length (chosen_point tag (choose part lines)) ≤ 1)
  unfolding choose
  chosen_point-IsAbout tag part lines h =
      elim (Option-cases (first_of (keep (λ l. contains_text part l) lines))) [
        | inl none_has ↦ elim (Option-cases (first_of lines)) [
          | inl empty ↦ rw (none_has, choose) (rw empty (tt, omega arith))
          | inr (l, there) ↦
              rw (none_has, choose)
                (rw there (((l, tag, first_of-All lines l there h, refl), tt), omega arith))
        ]
        | inr (l, has) ↦
            rw (has, choose)
              (
                (
                  (
                    l,
                    tag,
                    first_of-All _ l has (All-keep P (λ x. contains_text part x) lines h),
                    refl,
                  ),
                  tt,
                ),
                omega arith,
              )
      ]

  map-bullet :
      (tag : Text) (lines : List Text) → All P lines → All (IsAbout P) (map (bullet tag) lines)
  map-bullet tag [] h = tt
  map-bullet tag (l ∷ ls) h = ((l, tag, h.0, refl), map-bullet tag ls h.1)

  length-map-bullet :
      (tag : Text) (lines : List Text) → length (map (bullet tag) lines) ≡ length lines
  length-map-bullet tag [] = refl
  length-map-bullet tag (l ∷ ls) = omega (arith, length-map-bullet tag ls)

  -- The evidence of an offline analysis is made of the prompt's own lines: at most six bullets, each about
  -- a stripped line of the prompt, so that what holds of all those lines holds of every line cited.
  pub fake_points-IsAbout :
      (prompt : Text)
      → All P (map strip (splitlines prompt))
      → All (IsAbout P) (fake_points prompt) × (length (fake_points prompt) ≤ 6)
  unfolding fake_points lines_with
  fake_points-IsAbout prompt h =
      let found : (start : Text) → All P (lines_with start prompt) =
        λ start. All-keep P (λ l. starts_with start l) (map strip (splitlines prompt)) h in
      let sensors = take 4 (lines_with (codes "- sensor:") prompt) in
      let few : length sensors ≤ 4 = length-take 4 (lines_with (codes "- sensor:") prompt) in
      let part = codes "SOP-" ++ (fake_cause (lines_with (codes "- sensor:") prompt)).prefer in
      let (sop, one_sop) =
        chosen_point-IsAbout (codes " [SOP citation]") part _ (found (codes "- SOP [")) in
      let (hist, one_hist) =
        chosen_point-IsAbout (codes " [historical incident]") (codes "HIST-2026-0141") _
          (found (codes "- HIST [")) in
      let points = map (bullet (codes " [sensor reading]")) sensors in
      let sop_points =
        chosen_point (codes " [SOP citation]")
          (choose part (lines_with (codes "- SOP [") prompt)) in
      let hist_points =
        chosen_point (codes " [historical incident]")
          (choose (codes "HIST-2026-0141") (lines_with (codes "- HIST [") prompt)) in
      (
        All-append (IsAbout P) points (sop_points ++ hist_points)
            (map-bullet _ sensors (All-take P 4 _ (found (codes "- sensor:"))))
            (All-append (IsAbout P) sop_points hist_points sop hist),
        omega (
          arith,
          length-append points (sop_points ++ hist_points),
          length-append sop_points hist_points,
          length-map-bullet (codes " [sensor reading]") sensors,
          few,
          one_sop,
          one_hist,
        ),
      )

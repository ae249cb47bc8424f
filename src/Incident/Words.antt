-- ===== src/Incident/Words.antt =====
-- The status column. Every write of the program, and STATUS_FILTER in
-- agent-service/app/api/incidents.py, takes it from these twelve words.
use Prim.Native.Nat.{zero}
use processguard_ai.Base.{
  refl, ==_iff, ap, inr, inl, ◌∙◌, ==_refl, sym, Bool-cases, true, false, suc, ◌≢◌, ◌≡◌, ℕ, Bool,
  ◌==◌,
}

pub data Status : Type 0 where
  opened investigating risk_assessed recommended awaiting_approval auto_informed : Status
  approved action_taken action_failed rejected needs_human_review resolved : Status

-- A number for each word, so that two words are compared as the program compares strings.
abbrev pub status_code : Status → ℕ
status_code opened = 0
status_code investigating = 1
status_code risk_assessed = 2
status_code recommended = 3
status_code awaiting_approval = 4
status_code auto_informed = 5
status_code approved = 6
status_code action_taken = 7
status_code action_failed = 8
status_code rejected = 9
status_code needs_human_review = 10
status_code resolved = 11

abbrev pub status_eq : Status → Status → Bool
status_eq s t = status_code s == status_code t

pub Status-discrete : Discrete Status
Status-discrete = hlevel

-- low / medium / high.
pub data Severity : Type 0 where
  low medium high : Severity

abbrev status_of_code : ℕ → Status
status_of_code zero = opened
status_of_code (suc zero) = investigating
status_of_code (suc (suc zero)) = risk_assessed
status_of_code (suc (suc (suc zero))) = recommended
status_of_code (suc (suc (suc (suc zero)))) = awaiting_approval
status_of_code (suc (suc (suc (suc (suc zero))))) = auto_informed
status_of_code (suc (suc (suc (suc (suc (suc zero)))))) = approved
status_of_code (suc (suc (suc (suc (suc (suc (suc zero))))))) = action_taken
status_of_code (suc (suc (suc (suc (suc (suc (suc (suc zero)))))))) = action_failed
status_of_code (suc (suc (suc (suc (suc (suc (suc (suc (suc zero))))))))) = rejected
status_of_code (suc (suc (suc (suc (suc (suc (suc (suc (suc (suc zero)))))))))) = needs_human_review
status_of_code (suc (suc (suc (suc (suc (suc (suc (suc (suc (suc (suc n))))))))))) = resolved

status_of_code_lem : (s : Status) → status_of_code (status_code s) ≡ s
status_of_code_lem opened = refl
status_of_code_lem _ = refl

pub status_eq_sound : (s t : Status) → status_eq s t ≡ true → s ≡ t
status_eq_sound s t h =
    sym (status_of_code_lem s) ∙ ap status_of_code ((==_iff _ _).0 h) ∙ status_of_code_lem t

pub status_eq_refl : (s : Status) → status_eq s s ≡ true
status_eq_refl s = ==_refl (status_code s)

pub status_eq-ne : (s t : Status) → s ≢ t → status_eq s t ≡ false
status_eq-ne s t h = elim (Bool-cases (status_eq s t)) [
  | inl e ↦ absurd (h (status_eq_sound s t e))
  | inr e ↦ e
]

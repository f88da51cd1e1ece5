-- ===== src/Models/Phases.antt =====
-- The phases of a task: the texts that storage/tasks.py writes to the column `phase`.
use agpair.Base.{ℕ, Bool, false, ◌||◌, List, [], ◌∷◌, eqb}

pub data Phase : Type 0 where
  new acked ready_for_review evidence_ready committed blocked stuck abandoned : Phase

abbrev phase_no : Phase → ℕ
phase_no new = 0
phase_no acked = 1
phase_no ready_for_review = 2
phase_no evidence_ready = 3
phase_no committed = 4
phase_no blocked = 5
phase_no stuck = 6
phase_no abandoned = 7

abbrev pub same_phase : Phase → Phase → Bool
same_phase a b = eqb (phase_no a) (phase_no b)

-- `phase in {…}`
abbrev pub phase_in : Phase → List Phase → Bool
phase_in p [] = false
phase_in p (q ∷ qs) = same_phase p q || phase_in p qs

abbrev pub terminal_phases : List Phase
terminal_phases = ready_for_review ∷ evidence_ready ∷ committed ∷ blocked ∷ stuck ∷ abandoned ∷ []

abbrev pub success_review_phases : List Phase
success_review_phases = ready_for_review ∷ evidence_ready ∷ committed ∷ []

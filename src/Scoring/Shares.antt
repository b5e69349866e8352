-- ===== src/Scoring/Shares.antt =====
-- `distributeSkillXP` of gitrank/services/scoring-engine/internal/scoring/engine.go.
use text.Mathlib.Text.{◌==◌ as str_eq}
use gitrank.Common.{ℕ, suc, ◌/◌, ◌%◌, ◌-◌, String, List, [], ◌∷◌, length, ltb, if◌then◌else◌}
use gitrank.Common.Int.{ℤ, pos, negsuc, ◌+ℤ◌, sub_ℕ}

-- totalXP / n, truncated towards zero.
abbrev pub quotient : ℤ → ℕ → ℤ
quotient (pos total) n = pos (total / n)
quotient (negsuc total) n = sub_ℕ 0 (suc total / n)

-- How many of the skills get one more: totalXP % n, where that is positive.
abbrev pub left_over : ℤ → ℕ → ℕ
left_over (pos total) n = total % n
left_over (negsuc total) n = 0

-- result[skill] = value
unfoldable pub assign : String → ℤ → List (String × ℤ) → List (String × ℤ)
assign skill value [] = (skill, value) ∷ []
assign skill value ((key, old) ∷ rest) =
    let later = assign skill value rest in
    if str_eq key skill then (key, value) ∷ rest else (key, old) ∷ later

-- The loop of `distributeSkillXP`, with `remaining` shares of one to hand out.
unfoldable pub share_out : ℤ → ℕ → List String → List (String × ℤ) → List (String × ℤ)
unfolding assign
share_out base remaining [] result = result
share_out base remaining (skill ∷ skills) result =
    share_out base (remaining - 1) skills
      (assign skill (if ltb 0 remaining then base +ℤ pos 1 else base) result)

-- `distributeSkillXP`
unfoldable pub distribute_skill_xp : List String → ℤ → List (String × ℤ)
unfolding share_out
distribute_skill_xp [] total_xp = []
distribute_skill_xp (skill ∷ skills) total_xp =
    let n = suc (length skills) in
    share_out (quotient total_xp n) (left_over total_xp n) (skill ∷ skills) []

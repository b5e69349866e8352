-- ===== src/Replay/Streaks.antt =====
-- The streak and the counts of a context
-- (gitrank/services/scoring-engine/internal/service/service.go).
use gitrank.Common.{
  ℕ, zero, suc, ◌+◌, ◌-◌, ◌*◌, ◌/◌, ◌≤◌, ◌<◌, ◌≡◌, refl, sym, ap, inl, inr, Bool-cases, Bool, true,
  false, ◌&&◌, List, [], ◌∷◌, count_by, arith,
}
use gitrank.Common.Int.{pos, ◌≤ℤ◌}
use gitrank.Common.Float.{Float64}
use gitrank.Replay.History.{
  HistoricalContribution, ReplayCandidate, week, active_in, active_down, Tally, tally_history,
  tally_prior, is_recent, in_repository, in_category, derive_contributor_context, no_tally,
  start_of_week, consecutive_active_weeks,
}

-- The weeks from number `k` down are active, so many of them.
active_down-all :
    (weeks : List ℕ) (k i : ℕ) → i < active_down weeks k → active_in weeks ((k - i) * week) ≡ true
unfolding active_down
active_down-all weeks zero zero h = elim (Bool-cases (active_in weeks 0)) [
  | inl e ↦ e
  | inr e ↦ ground (arith, h, e)
]
active_down-all weeks zero (suc i) h = ground (arith, h)
active_down-all weeks (suc k) zero h = elim (Bool-cases (active_in weeks (suc k * week))) [
  | inl e ↦ let same : suc k - 0 ≡ suc k = omega arith in rw same e
  | inr e ↦ ground (arith, h, e)
]
active_down-all weeks (suc k) (suc i) h =
    let same : suc k - suc i ≡ k - i = omega arith in
    rw same (active_down-all weeks k i (ground (arith, h)))

active_down-end :
    (weeks : List ℕ) (k : ℕ)
    → active_down weeks k ≤ k
    → active_in weeks ((k - active_down weeks k) * week) ≡ false
unfolding active_down
active_down-end weeks zero h = elim (Bool-cases (active_in weeks 0)) [
  | inl e ↦ ground (arith, h, e)
  | inr e ↦ rw e e
]
active_down-end weeks (suc k) h = elim (Bool-cases (active_in weeks (suc k * week))) [
  | inl e ↦
      let inner = active_down-end weeks k (ground (arith, h, e)) in
      let same : suc k - suc (active_down weeks k) ≡ k - active_down weeks k = omega arith in
      rw e rw same inner
  | inr e ↦ let same : suc k - 0 ≡ suc k = omega arith in rw e rw same e
]

start_of_week-number :
    (t i : ℕ)
    → (start_of_week t / week ≡ t / week) × ((t / week - i) * week ≡ start_of_week t - i * week)
unfolding start_of_week
start_of_week-number t i = (omega arith, omega arith)

enough : (t n : ℕ) → n * week ≤ start_of_week t → n ≤ t / week
unfolding start_of_week
enough t n h = omega arith

-- For any set of active weeks, the streak counts back from the week of an instant: all its weeks are
-- active, and the week before them, if there is one since Go's zero time, is not.
pub consecutive_active_weeks_lem :
    (weeks : List ℕ) (t : ℕ)
    → let start = start_of_week t in
      let n = consecutive_active_weeks weeks start in
      ((i : ℕ) → i < n → active_in weeks (start - i * week) ≡ true)
      × (n * week ≤ start → active_in weeks (start - n * week) ≡ false)
unfolding consecutive_active_weeks active_in
consecutive_active_weeks_lem [] t = ((λ i h. ground (arith, h)), λ h. refl)
consecutive_active_weeks_lem (w ∷ weeks) t = rw (start_of_week-number t 0).0 (
  (λ i h. rw (sym (start_of_week-number t i).1) (active_down-all (w ∷ weeks) (t / week) i h)),
  (λ h.
      let n = active_down (w ∷ weeks) (t / week) in
      rw (sym (start_of_week-number t n).1)
        (active_down-end (w ∷ weeks) (t / week) (enough t n h))),
)

module _ {F : Type 0} (candidate : ReplayCandidate F) where
  -- The counters of the loop count what their tests say.
  tally_history-counts :
      (history : List HistoricalContribution) (t : Tally)
      → let r = tally_history candidate history t in
        (r.recent_merged ≡ t.recent_merged + count_by (λ p. p.merged) history)
        × (r.recent_repo
            ≡ t.recent_repo
              + count_by (λ p. is_recent candidate p && in_repository candidate p) history)
        × (r.recent_category
            ≡ t.recent_category
              + count_by (λ p. is_recent candidate p && in_category candidate p) history)
        × (r.recent_similar
            ≡ t.recent_similar
              + count_by
                  (λ p.
                    is_recent candidate p && (in_repository candidate p && in_category candidate p))
                  history)
  unfolding tally_history tally_prior
  tally_history-counts [] t = (omega arith, omega arith, omega arith, omega arith)
  tally_history-counts (p ∷ history) t =
      let rest = tally_history-counts history (tally_prior candidate p t) in
      (
        ground (arith, rest.0),
        ground (arith, rest.1),
        ground (arith, rest.2),
        ground (arith, rest.3),
      )

count_by-narrow :
    {A : Type 0} (p q r : A → Bool) (xs : List A)
    → (count_by (λ x. p x && (q x && r x)) xs ≤ count_by (λ x. p x && q x) xs)
      × (count_by (λ x. p x && (q x && r x)) xs ≤ count_by (λ x. p x && r x) xs)
count_by-narrow p q r [] = (omega arith, omega arith)
count_by-narrow p q r (x ∷ xs) =
    let rest = count_by-narrow p q r xs in (ground (arith, rest.0), ground (arith, rest.1))

from_zero : {n m : ℕ} → n ≡ 0 + m → pos n ≡ pos m
from_zero {n} {m} e = ap pos (omega arith)

-- The context counts, over the whole history, the merged contributions, and, over what occurred at
-- most sixty days before the candidate, the contributions to its repository, those of its category,
-- and those that are both; the last count is at most either of the other two.
pub derive_contributor_context-counts :
    (fl : Float64) (history : List HistoricalContribution) (candidate : ReplayCandidate fl.F)
    → let c = derive_contributor_context fl history candidate in
      let recent = is_recent candidate in
      let here = in_repository candidate in
      let alike = in_category candidate in
      (c.recent_merged_pull_requests ≡ pos (count_by (λ p. p.merged) history))
      × (c.recent_repository_pull_requests ≡ pos (count_by (λ p. recent p && here p) history))
      × (c.recent_category_pull_requests ≡ pos (count_by (λ p. recent p && alike p) history))
      × (c.recent_similar_pull_requests
          ≡ pos (count_by (λ p. recent p && (here p && alike p)) history))
      × (c.recent_similar_pull_requests ≤ℤ c.recent_repository_pull_requests)
      × (c.recent_similar_pull_requests ≤ℤ c.recent_category_pull_requests)
unfolding derive_contributor_context
derive_contributor_context-counts fl history candidate =
    let counts = tally_history-counts candidate history no_tally in
    let narrow =
      count_by-narrow (is_recent candidate) (in_repository candidate) (in_category candidate)
        history in
    (
      from_zero counts.0,
      from_zero counts.1,
      from_zero counts.2,
      from_zero counts.3,
      grind (arith, counts.1, counts.3, narrow.0),
      grind (arith, counts.2, counts.3, narrow.1),
    )

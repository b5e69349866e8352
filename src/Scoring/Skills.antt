-- ===== src/Scoring/Skills.antt =====
-- How the XP of a contribution is spread over its skills
-- (gitrank/services/scoring-engine/internal/scoring/engine.go).
use text.Mathlib.Text.{◌==◌ as str_eq}
use native.Mathlib.Nat.{div-add-mod}
use gitrank.Common.{
  ℕ, zero, suc, ◌+◌, ◌-◌, ◌*◌, ◌/◌, ◌%◌, ◌≤◌, ◌≡◌, refl, ◌⊎◌, inl, inr, Bool, false, ◌||◌, String,
  List, [], ◌∷◌, All, length, ltb, arith, eq_iff, Bool-cases, if◌then◌else◌,
}
use gitrank.Common.Int.{ℤ, pos, pos_part, ◌+ℤ◌}
use gitrank.Scoring.Shares.{assign, share_out, distribute_skill_xp}

abbrev pub listed : String → List String → Bool
listed s [] = false
listed s (t ∷ ts) = str_eq t s || listed s ts

-- No skill is named twice.
abbrev pub AreDistinct : List String → Type 0
AreDistinct [] = Unit
AreDistinct (s ∷ ss) = (listed s ss ≡ false) × AreDistinct ss

abbrev pub xp_sum : List (String × ℤ) → ℕ
xp_sum [] = 0
xp_sum ((skill, xp) ∷ rest) = pos_part xp + xp_sum rest

abbrev has_key : String → List (String × ℤ) → Bool
has_key k [] = false
has_key k ((key, xp) ∷ rest) = str_eq key k || has_key k rest

abbrev pub IsShare : ℕ → String × ℤ → Type 0
IsShare base entry = (entry.1 ≡ pos base) ⊎ (entry.1 ≡ pos (base + 1))

assign-sum :
    (k : String) (xp : ℕ) (m : List (String × ℤ))
    → has_key k m ≡ false
    → xp_sum (assign k (pos xp) m) ≡ xp_sum m + xp
unfolding assign
assign-sum k xp [] h = omega arith
assign-sum k xp ((key, old) ∷ m) h = ground (arith, assign-sum k xp m)

assign-has_key :
    (k j : String) (xp : ℤ) (m : List (String × ℤ))
    → has_key j (assign k xp m) ≡ (str_eq k j || has_key j m)
unfolding assign
assign-has_key k j xp [] = refl
assign-has_key k j xp ((key, old) ∷ m) =
    ground (arith, assign-has_key k j xp m, eq_iff key k, eq_iff key j, eq_iff k j)

assign-IsShare :
    (base : ℕ) (k : String) (xp : ℤ) (m : List (String × ℤ))
    → IsShare base (k, xp)
    → All (IsShare base) m
    → All (IsShare base) (assign k xp m)
unfolding assign
assign-IsShare base k xp [] s a = (s, tt)
assign-IsShare base k xp ((key, old) ∷ m) s a = elim (Bool-cases (str_eq key k)) [
  | inl same ↦ rw same (s, a.1)
  | inr other ↦ rw other (a.0, assign-IsShare base k xp m s a.1)
]

-- None of the skills has a key in the result yet.
abbrev AreNew : List String → List (String × ℤ) → Type 0
AreNew [] m = Unit
AreNew (s ∷ ss) m = (has_key s m ≡ false) × AreNew ss m

AreNew-assign :
    (k : String) (xp : ℤ) (ss : List String) (m : List (String × ℤ))
    → listed k ss ≡ false
    → AreNew ss m
    → AreNew ss (assign k xp m)
AreNew-assign k xp [] m d n = tt
AreNew-assign k xp (s ∷ ss) m d n = (
  ground (arith, assign-has_key k s xp m, eq_iff k s, eq_iff s k, n.0),
  AreNew-assign k xp ss m (ground arith) n.1,
)

one_more :
    (remaining base : ℕ)
    → (if ltb 0 (suc remaining) then pos base +ℤ pos 1 else pos base) ≡ pos (base + 1)
one_more remaining base = ground arith

share_out-sum :
    (base remaining : ℕ) (ss : List String) (m : List (String × ℤ))
    → remaining ≤ length ss
    → AreDistinct ss
    → AreNew ss m
    → All (IsShare base) m
    → (xp_sum (share_out (pos base) remaining ss m) ≡ xp_sum m + base * length ss + remaining)
      × All (IsShare base) (share_out (pos base) remaining ss m)
unfolding share_out
share_out-sum base remaining [] m r d n a = (grind arith, a)
share_out-sum base zero (s ∷ ss) m r d n a =
    let step =
      share_out-sum base 0 ss (assign s (pos base) m) (omega arith) d.1
        (AreNew-assign s (pos base) ss m d.0 n.1)
        (assign-IsShare base s (pos base) m (inl refl) a) in
    (grind (arith, step.0, assign-sum s base m n.0), step.1)
share_out-sum base (suc remaining) (s ∷ ss) m r d n a =
    let step =
      share_out-sum base remaining ss (assign s (pos (base + 1)) m) (omega arith) d.1
        (AreNew-assign s (pos (base + 1)) ss m d.0 n.1)
        (assign-IsShare base s (pos (base + 1)) m (inr refl) a) in
    let less_one : suc remaining - 1 ≡ remaining = omega arith in
    (
      grind (arith, step.0, less_one, assign-sum s (base + 1) m n.0),
      rw less_one (rw (one_more remaining base) step.1),
    )

AreNew-empty : (ss : List String) → AreNew ss []
AreNew-empty [] = tt
AreNew-empty (s ∷ ss) = (refl, AreNew-empty ss)

-- An award of `n` XP on distinct skills, at least one, is given out to the last point, and evenly:
-- the shares add up to `n`, and each is `n` over the number of skills, rounded down, or one more.
pub distribute_skill_xp-sum :
    (s : String) (ss : List String) (n : ℕ)
    → AreDistinct (s ∷ ss)
    → (xp_sum (distribute_skill_xp (s ∷ ss) (pos n)) ≡ n)
      × All (IsShare (n / length (s ∷ ss))) (distribute_skill_xp (s ∷ ss) (pos n))
unfolding distribute_skill_xp
distribute_skill_xp-sum s ss n d =
    let k = suc (length ss) in
    let shared =
      share_out-sum (n / k) (n % k) (s ∷ ss) [] (omega arith) d (AreNew-empty (s ∷ ss)) tt in
    (grind (arith, shared.0, div-add-mod n k), shared.1)

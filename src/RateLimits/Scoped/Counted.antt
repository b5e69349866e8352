-- ===== src/RateLimits/Scoped/Counted.antt =====
-- What `scopeRateLimiter` (gitrank/services/scheduler-worker/internal/service/ratelimit.go) counts.
use text.Mathlib.Text.{◌==◌ as str_eq}
use text.Mathlib.TextPositions.{eq_refl}
use gitrank.Common.{
  ◌≡◌, inl, inr, Bool, true, false, ◌||◌, String, List, [], ◌∷◌, arith, Bool-cases, trim_space,
}
use gitrank.Common.Int.{ℤ, pos, nonpos, ◌≤ℤ◌, ◌<ℤ◌}
use gitrank.Common.Clock.{Time, Duration, add}
use gitrank.RateLimits.Scoped.{ScopeWindow, ScopeRateLimiter, put, judge, allow}

-- No key is counted beyond the limit.
abbrev pub IsWithin : ScopeRateLimiter → Type 0
IsWithin l = (key : String) → pos (l.hits key).count ≤ℤ l.max

pub run : ScopeRateLimiter → List (String × Time) → ScopeRateLimiter
run l [] = l
run l ((key, now) ∷ calls) = run (allow key now l).0 calls

judge-within :
    (window : Duration) (max : ℤ) (current : ScopeWindow) (now : Time)
    → nonpos max ≡ false
    → pos current.count ≤ℤ max
    → pos (judge window max current now).0.count ≤ℤ max
unfolding judge
judge-within window max current now h b = ground arith

-- `Allow` counts nothing: the limiter is switched off, or the key is blank.
abbrev passes : String → ScopeRateLimiter → Bool
passes key l = nonpos l.max || nonpos l.window || str_eq (trim_space key) ""

allow-IsWithin :
    (key : String) (now : Time) (l : ScopeRateLimiter)
    → nonpos l.max ≡ false
    → IsWithin l
    → IsWithin (allow key now l).0 × (nonpos (allow key now l).0.max ≡ false)
unfolding allow
allow-IsWithin key now l on w = elim (Bool-cases (passes key l)) [
  | inl off ↦ rw off (w, on)
  | inr counted ↦ rw counted (each, on)
]
  where
    each :
        (k : String)
        → pos
            (put
              (trim_space key)
              (judge l.window l.max (l.hits (trim_space key)) now).0
              l.hits
              k).count
          ≤ℤ l.max
    each k = elim (Bool-cases (str_eq (trim_space key) k)) [
      | inl same ↦
          rw same
            (judge-within l.window l.max (l.hits (trim_space key)) now on (w (trim_space key)))
      | inr other ↦ rw other (w k)
    ]

-- A limiter with a positive limit never counts more hits in a key's window than that limit, after
-- any calls with any keys at any times.
run-IsWithin :
    (l : ScopeRateLimiter) (calls : List (String × Time))
    → nonpos l.max ≡ false
    → IsWithin l
    → IsWithin (run l calls)
unfolding run
run-IsWithin l [] on w = w
run-IsWithin l ((key, now) ∷ calls) on w =
    let next = allow-IsWithin key now l on w in run-IsWithin (allow key now l).0 calls next.1 next.0

judge_retry :
    (window : Duration) (max : ℤ) (current : ScopeWindow) (now : Time)
    → (judge window max current now).1 ≡ false
    → (judge window max current now).0 ≡ current
      × ((judge window max current (add now (judge window max current now).2)).1 ≡ true)
      × (pos 0 <ℤ (judge window max current now).2)
unfolding judge
judge_retry window max current now h = ground arith

-- A refusal changes nothing that is counted of its key, names a positive delay, and a call with that
-- key after that delay, with no other call between, is allowed.
pub scope_retry_allowed :
    (key : String) (now : Time) (l : ScopeRateLimiter)
    → (allow key now l).1 ≡ false
    → (pos 0 <ℤ (allow key now l).2)
      × ((allow key (add now (allow key now l).2) (allow key now l).0).1 ≡ true)
      × ((allow key now l).0.hits (trim_space key) ≡ l.hits (trim_space key))
unfolding allow
scope_retry_allowed key now l refused = elim (Bool-cases (passes key l)) [
  | inl off ↦ let no : true ≡ false = rw off at refused in cc
  | inr counted ↦
      let r = judge_retry l.window l.max (l.hits (trim_space key)) now (rw counted at refused) in
      rw (counted, eq_refl) (r.2, rw (counted, r.0) r.1, r.0)
]

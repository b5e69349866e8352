-- ===== src/RateLimits/Sliding/Window.antt =====
-- The promise of the sliding-window limiters (gitrank/services/api-gateway/internal/httpapi and
-- gitrank/services/auth-service/internal/service, ratelimit.go in each).
use text.Mathlib.Text.{◌==◌ as str_eq}
use text.Mathlib.TextPositions.{eq_refl}
use gitrank.Common.{
  ℕ, ◌+◌, ◌≤◌, ◌<◌, ◌≡◌, refl, inl, inr, Bool, ◌&&◌, leb, String, List, [], ◌∷◌, length, keep,
  count_by, count_by-append, count_by-le, length-keep-le, length-snoc, arith, Bool-cases, leb→le,
  if◌then◌else◌, eq_iff,
}
use gitrank.Common.Clock.{Time, Duration}
use gitrank.RateLimits.Sliding.{
  RateLimiter, is_recent, judge, allow_with, gateway_allow, auth_allow, at_least_second,
  window_if_negative,
}

-- The hit lies in the window that ends at `s`.
abbrev pub in_window : ℕ → Time → Time → Bool
in_window window s hit = is_recent window s hit && leb hit s

-- The calls' times never go back, and start at `last` at the earliest.
abbrev pub IsAscending : Time → List (String × Time) → Type 0
IsAscending last [] = Unit
IsAscending last ((key, now) ∷ calls) = (last ≤ now) × IsAscending now calls

module _ (fit : ℕ → Duration → Duration) (window max_hits : ℕ) where
  count-keep :
      (now s : Time) (hits : List Time)
      → now ≤ s
      → count_by (is_recent window s) (keep (is_recent window now) hits)
        ≡ count_by (is_recent window s) hits
  count-keep now s [] h = refl
  count-keep now s (hit ∷ hits) h = ground (arith, count-keep now s hits)

  judge-length :
      (hits : List Time) (now : Time)
      → length hits ≤ max_hits
      → length (judge fit window max_hits hits now).0 ≤ max_hits
  unfolding judge
  judge-length hits now h = ground (
    arith,
    length-keep-le (is_recent window now) hits,
    length-snoc (keep (is_recent window now) hits) now,
  )

  judge-count :
      (hits : List Time) (now s : Time)
      → now ≤ s
      → count_by (is_recent window s) (judge fit window max_hits hits now).0
        ≡ count_by (is_recent window s) hits
          + (if (judge fit window max_hits hits now).1 && is_recent window s now then 1 else 0)
  unfolding judge
  judge-count hits now s h = ground (
    arith,
    count-keep now s hits h,
    count_by-append (is_recent window s) (keep (is_recent window now) hits) (now ∷ []),
  )

-- The times of the calls with the key `k` that the limiter allows.
module _ (allow : String → Time → RateLimiter → RateLimiter × Bool × Duration) (k : String) where
  unfoldable pub allowed_hits : RateLimiter → List (String × Time) → List Time
  allowed_hits l [] = []
  allowed_hits l ((key, now) ∷ calls) =
      let (l', allowed, delay) = allow key now l in
      let later = allowed_hits l' calls in if str_eq key k && allowed then now ∷ later else later

module _ (fit : ℕ → Duration → Duration) (k : String) where
  -- A window that ends before the calls start holds none of them.
  early :
      (s last : Time) (l : RateLimiter) (calls : List (String × Time))
      → s < last
      → IsAscending last calls
      → count_by (in_window l.window s) (allowed_hits (allow_with fit) k l calls) ≡ 0
  unfolding allowed_hits allow_with
  early s last l [] h a = refl
  early s last l ((key, now) ∷ calls) h a =
      ground (arith, early s now (allow_with fit key now l).0 calls (omega arith) a.1)

  -- What one call does to the hits of `k`.
  spent :
      (s now : Time) (key : String) (l : RateLimiter)
      → now ≤ s
      → length (l.hits k) ≤ l.max_hits
      → let (l', allowed, delay) = allow_with fit key now l in
        (length (l'.hits k) ≤ l.max_hits)
        × (count_by (is_recent l.window s) (l'.hits k)
            ≡ count_by (is_recent l.window s) (l.hits k)
              + (if str_eq key k && (allowed && is_recent l.window s now) then 1 else 0))
  unfolding allow_with
  spent s now key l h b = elim (Bool-cases (str_eq key k)) [
    | inr other ↦ rw other (b, omega arith)
    | inl same ↦
        let e : key ≡ k = (eq_iff key k).0 same in
        rw (e, eq_refl)
          (
            judge-length fit l.window l.max_hits (l.hits k) now b,
            judge-count fit l.window l.max_hits (l.hits k) now s h,
          )
  ]

  windowed :
      (s last : Time) (l : RateLimiter) (calls : List (String × Time))
      → last ≤ s
      → IsAscending last calls
      → length (l.hits k) ≤ l.max_hits
      → count_by (is_recent l.window s) (l.hits k)
          + count_by (in_window l.window s) (allowed_hits (allow_with fit) k l calls)
        ≤ l.max_hits
  unfolding allowed_hits allow_with
  windowed s last l [] h a b = omega (arith, count_by-le (is_recent l.window s) (l.hits k))
  windowed s last l ((key, now) ∷ calls) h a b = elim (Bool-cases (leb now s)) [
    | inr later ↦ omega (
      arith,
      early s now l ((key, now) ∷ calls) (ground arith) (omega arith, a.1),
      count_by-le (is_recent l.window s) (l.hits k),
    )
    | inl past ↦
        let one = spent s now key l (leb→le now s past) b in
        let rest =
          windowed s now (allow_with fit key now l).0 calls (leb→le now s past) a.1 one.0 in
        ground (arith, one.1, rest)
  ]

  bounded :
      (s last : Time) (l : RateLimiter) (calls : List (String × Time))
      → IsAscending last calls
      → length (l.hits k) ≤ l.max_hits
      → count_by (in_window l.window s) (allowed_hits (allow_with fit) k l calls) ≤ l.max_hits
  bounded s last l calls a b = elim (Bool-cases (leb last s)) [
    | inl past ↦ omega (arith, windowed s last l calls (leb→le last s past) a b)
    | inr before ↦ omega (arith, early s last l calls (ground arith) a)
  ]

-- For every key, and every window of the limiter's length, wherever it ends: of the calls made from
-- times that never go back, the gateway's limiter and the auth service's each allow at most
-- `max_hits` with that key in that window.
pub window_bounded :
    (k : String) (s last : Time) (l : RateLimiter) (calls : List (String × Time))
    → IsAscending last calls
    → length (l.hits k) ≤ l.max_hits
    → (count_by (in_window l.window s) (allowed_hits gateway_allow k l calls) ≤ l.max_hits)
      × (count_by (in_window l.window s) (allowed_hits auth_allow k l calls) ≤ l.max_hits)
unfolding gateway_allow auth_allow
window_bounded k s last l calls a b =
    (bounded at_least_second k s last l calls a b, bounded window_if_negative k s last l calls a b)

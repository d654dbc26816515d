-- ===== src/Ingestion/Repository/Skew.antt =====
-- `hasExcessiveClockSkew` of src/ingestion/shot-repository.ts.
use pureplay_analytics_inges.Prelude.{ℕ, ◌*◌, ◌≡◌, ◌↔◌, false, ℤ, pos, ◌+ℤ◌, ◌-ℤ◌, ◌≤ℤ◌, arith}
use pureplay_analytics_inges.Ingestion.Repository.{exceeds_skew, has_excessive_clock_skew}

exceeds_skew_iff :
    (c r : ℤ) (past future : ℕ)
    → (exceeds_skew c r past future ≡ false)
      ↔ ((c ≤ℤ r +ℤ pos (future * 1000)) × (r ≤ℤ c +ℤ pos (past * 1000)))
unfolding exceeds_skew ◌-ℤ◌ ◌+ℤ◌
exceeds_skew_iff c r past future = ground arith

-- A shot has no excessive skew exactly if it was captured at most 300000 ms after and at most
-- 86400000 ms before its receipt.
pub has_excessive_clock_skew_iff :
    (captured received : ℤ)
    → (has_excessive_clock_skew captured received ≡ false)
      ↔ ((captured ≤ℤ received +ℤ pos 300000) × (received ≤ℤ captured +ℤ pos 86400000))
unfolding has_excessive_clock_skew
has_excessive_clock_skew_iff captured received = exceeds_skew_iff captured received 86400 300

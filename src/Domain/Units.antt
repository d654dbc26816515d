-- ===== src/Domain/Units.antt =====
-- src/shared/domain/units.ts
use pureplay_analytics_inges.Platform.{Number}

module _ {N : Type 0} ⦃num : Number N⦄ where
  abbrev pub mph_to_mps_factor : N
  mph_to_mps_factor = num.literal 44704 5

  abbrev pub kph_to_mps_factor : N
  kph_to_mps_factor = num.div (num.literal 1 0) (num.literal 36 1)

  abbrev pub ft_to_m_factor : N
  ft_to_m_factor = num.literal 3048 4

  abbrev pub yd_to_m_factor : N
  yd_to_m_factor = num.literal 9144 4

  unfoldable pub mph_to_mps : N → N
  mph_to_mps mph = num.mul mph mph_to_mps_factor

  unfoldable pub kph_to_mps : N → N
  kph_to_mps kph = num.mul kph kph_to_mps_factor

  unfoldable pub ft_to_m : N → N
  ft_to_m ft = num.mul ft ft_to_m_factor

  unfoldable pub yd_to_m : N → N
  yd_to_m yd = num.mul yd yd_to_m_factor

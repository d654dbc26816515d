-- ===== src/Examples/Batched.antt =====
-- A SwingMetric batch of two shots of one second.
use pureplay_analytics_inges.Prelude.{some, codes, pos}
use pureplay_analytics_inges.Platform.Sample.{whole_numbers, plain}
use pureplay_analytics_inges.Webhooks.Routes.{Receipt}

abbrev soon : Receipt
soon = record {
  correlation_header = some (codes "r-2");
  random_uuid = codes "r-1";
  received_at_utc = pos 6000;
}

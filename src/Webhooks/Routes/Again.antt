-- ===== src/Webhooks/Routes/Again.antt =====
-- src/webhooks/trackpro/trackpro.controller.ts: a payload that is delivered again.
use pureplay_analytics_inges.Prelude.{◌≡◌}
use pureplay_analytics_inges.Platform.{Platform}
use pureplay_analytics_inges.Ingestion.Queue.{Queue, Result, ok}

ok-injective : {A : Type 0} {a b : A} → ◌≡◌ {A = Result A} (ok a) (ok b) → a ≡ b
ok-injective h = cc

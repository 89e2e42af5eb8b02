-- ===== src/Delivery/Email/Failures.antt =====
-- The errors of the job in packages/channels/src/email/delivery/handler.ts: what `handle` maps them
-- to, and which of them the job tries again.
use relayit.Jobs.{Disposition, retryable, terminal}
use relayit.Delivery.Email.{Failure, message_retryable, infrastructure, persistence, other, runtime}

-- The last `mapError` of `handle`.
unfoldable pub map_failure : Failure → Failure
map_failure other = message_retryable runtime "Unexpected delivery failure"
map_failure e = e

unfoldable pub classify_failure : Failure → Disposition
classify_failure (message_retryable _ _) = retryable
classify_failure infrastructure = retryable
classify_failure (persistence _) = retryable
classify_failure _ = terminal

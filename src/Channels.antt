-- ===== src/Channels.antt =====
-- services/channels: the registry of upstream channels, and the circuit breaker and the token
-- bucket that guard the side channels. Times are counts of microseconds.
pub mod Circuit
pub mod Rate
pub mod Registry
mod Tests
use jove_mage.Prelude.{String, strip, lower}

-- runtime.py `_normalize_channel`
unfoldable pub normalize_channel : String → String
normalize_channel channel = lower (strip channel)

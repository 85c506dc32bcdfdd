-- ===== src/Outbox.antt =====
-- packages/platform-common/src/platform_common/outbox.py: the statuses of an outbox row, which the
-- relay and the services that write to the outbox share.
pub mod Relay
use lojinextv.Prelude.{Bool, true, false}

pub data OutboxPublishStatus : Type 0 where
  pending publishing published failed dead_letter : OutboxPublishStatus

-- `publish_status in (PENDING, FAILED, PUBLISHING)`
abbrev pub is_live : OutboxPublishStatus → Bool
is_live pending = true
is_live publishing = true
is_live failed = true
is_live _ = false

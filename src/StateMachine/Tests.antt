-- ===== src/StateMachine/Tests.antt =====
-- The state machines, from one status each.

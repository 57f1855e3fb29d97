-- ===== src/Workflow.antt =====
-- workflow.py: the ordered product and circular workflows, the status that a subject's events give,
-- and the transitions that the portal admits. `_event_timestamp` is `str(timestamp or "")`.
pub mod Steps
pub mod Order
pub mod Member
pub mod Status
pub mod Transition
pub mod Tests

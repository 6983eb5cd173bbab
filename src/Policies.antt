-- ===== src/Policies.antt =====
-- The policies of src/luthien_proxy/policies that are modelled, a module for each.
pub mod ToolCallJudge
pub mod MultiSerial
pub mod SimplePolicy
pub mod TextModifier
mod Tests
pub mod StringReplacement

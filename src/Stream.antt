-- ===== src/Stream.antt =====
-- The events of a streamed assistant message, and the check of their order
-- (src/luthien_proxy/pipeline/stream_protocol_validator.py).
pub mod Event
pub mod Validator

-- ===== src/Pipeline.antt =====
-- What a request goes through before and after the policies.
pub mod PolicyContext
pub mod UpstreamHeaders

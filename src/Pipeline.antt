-- ===== src/Pipeline.antt =====
-- src/shadow_proxy/pipeline.py: the state that its functions share (World), the primary call and the
-- pending row (Persist), the handler's use of the archived payload (Payloads), and the handler of the
-- candidate jobs (Candidate).
pub mod World
pub mod Persist
pub mod Payloads
pub mod Candidate

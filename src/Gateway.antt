-- ===== src/Gateway.antt =====
-- The gateway of internal/gateway: who may call (kviam.go), how deep a queue may be (admission.go),
-- what is published (params.go), and the pipeline that puts them in order (gateway.go).
pub mod Iam
pub mod Watch
pub mod Admission
pub mod Params
pub mod Dispatch
pub mod Responses

-- ===== src/Api.antt =====
-- The messages of the client API: api/bluechipchain/fixedmint, generated by protoc-gen-go-pulsar. The
-- same protobuf messages as x/fixedmint/types, with reflection, and with their unknown fields kept.
pub mod Runtime
pub mod Reflect
pub mod Buffer
pub mod Params
pub mod Nested
pub mod Update
pub mod Single
pub mod Empty
pub mod ModuleConfig
pub mod Interop

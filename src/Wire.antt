-- ===== src/Wire.antt =====
-- The protobuf wire format, as the generated *.pb.go files of x/fixedmint/types read and write it.
-- Each of those files holds its own copy of the same functions; they are modelled once, here.
pub mod Leb
pub mod Varint
pub mod Buffer
pub mod Read
pub mod Message

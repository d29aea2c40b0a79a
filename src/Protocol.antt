-- ===== src/Protocol.antt =====
-- src/protocol: the frames, the rules for names, and the validation of what arrives.
pub mod Frame
pub mod Names
pub mod Caps
pub mod Json
pub mod Shapes
pub mod TaskPackage
pub mod Check
pub mod Rules
pub mod KindRules
pub mod Validate
pub mod Decoder

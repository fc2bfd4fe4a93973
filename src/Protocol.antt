-- ===== src/Protocol.antt =====
-- internal/protocol/protocol.go: the frames of the wire and the checks of the texts in them.
pub mod Frames
pub mod Validate
pub mod Json
pub mod Mentions
pub mod MentionLaws

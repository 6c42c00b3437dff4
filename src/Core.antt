-- ===== src/Core.antt =====
-- pkg/protocol/core: messages, the handler pipeline, channels, protocols and events.
pub mod Types
pub mod Handler
pub mod Pipeline
pub mod Protocol
pub mod Channel
pub mod Link
pub mod EventBus
pub mod Info
pub mod Document
pub mod Setup
pub mod Answer
mod Tests

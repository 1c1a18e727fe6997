-- ===== src/Stt.antt =====
-- src/stt_stream: streaming speech to text: stream tokens, voice activity, one session.
pub mod Tokens
pub mod Vad
pub mod Decoding
pub mod Session
mod Grants
mod Splits
mod Replies
mod Tests

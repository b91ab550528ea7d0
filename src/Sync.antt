-- ===== src/Sync.antt =====
-- app/websockets.py: what a client asks over its WebSocket, one child for each kind of sync.
pub mod Listed
pub mod Still
pub mod Fresh
pub mod Distinct
pub mod Description
pub mod Page
pub mod V2
pub mod Progress
pub mod Latest
pub mod Answers
pub mod Resync
pub mod V1
pub mod Endpoint
pub mod Reading
pub mod Serving
pub mod Sessions
pub mod Untouched
pub mod Cover
pub mod Scans
pub mod Rows
pub mod Reference
pub mod Pull
pub mod Bounds

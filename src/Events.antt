-- ===== src/Events.antt =====
-- The runtime event bus and its live streams: astrbot_ex/core/event_bus.py and event_stream.py.
pub mod Event
pub mod Bus
pub mod Stream
mod Examples

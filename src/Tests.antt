-- ===== src/Tests.antt =====
-- Each property whose statement has hypotheses, applied where they hold.
mod Fixtures
mod Parties
mod Folders
mod Handshakes
mod Flights
mod Windows
mod Frames
mod Stores
mod Channels
mod Files
mod Limits

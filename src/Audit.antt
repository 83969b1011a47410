-- ===== src/Audit.antt =====
-- app/logging and the reading routes of app/api.py: the rows of the audit log, the broadcast of new
-- rows to the live streams, and what the routes answer.
pub mod Event
pub mod Bus
pub mod Stream
pub mod Accepted
pub mod Took
pub mod Delivered
pub mod Query
pub mod Routes
pub mod Meets
pub mod Newest
pub mod Stats
mod RouteTests
mod Tests

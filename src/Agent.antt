-- ===== src/Agent.antt =====
-- The agent of a user: the handlers of user_agent/src/Agent.cpp. A user asks for resources for an
-- interval; the agent learns of the auctions for it in the answer to a session, fits them to the
-- interval, and starts processes that bid in them. Times are seconds, not negative; the current
-- time is an argument.
pub mod Intervals
pub mod Requests
pub mod Creation
pub mod References
pub mod Handlers
pub mod Ending
mod Tests

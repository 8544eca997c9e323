-- ===== src/PolicyTask.antt =====
-- main/policy_task.cpp: the task that runs the policy program once in a period.
-- Lua is a parameter. A program is what it does: it calls the functions that are registered for it,
-- meets the hook, and ends (Program). The state of the other parts is read at the moment of each
-- call, and a record (Moment) holds it with what FreeRTOS answers then. The text of an error and
-- the output of syslog have no part in the state.
pub mod Lua
pub mod Moments
pub mod Reading
pub mod Parameters
pub mod Commands
pub mod Cycle
pub mod Bounded
pub mod Isolation
pub mod Alike
pub mod Waiting
pub mod Forgetting
mod Tests

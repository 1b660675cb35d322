-- ===== src/Agent.antt =====
-- user/p4agent/p4agent.c: the agent in the VM that reports its TCP memory and watches whether its
-- packets went through the P4 runtimes.
pub mod Word
pub mod Report
pub mod Frame
pub mod Detector
pub mod Nic
pub mod Rounds
pub mod Main
pub mod Setup
mod Tests
pub mod Examples

-- ===== src/Command.antt =====
-- app/protocol: the commands that a node sends to another (types.rs), and what handles them
-- (commands.rs, util.rs). The handlers of the forwarding commands are parameters here.
pub mod Files
pub mod Handlers
pub mod Dispatch
pub mod WriteLaws
pub mod TempPath
pub mod Untouched
pub mod DirLaws
pub mod Executor
pub mod Remote
pub mod Calls
pub mod Disk
pub mod Upload
pub mod Download
pub mod Transfer
pub mod Drives
pub mod Display
pub mod Stages

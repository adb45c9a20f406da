-- ===== src/Sysfile.antt =====
-- kernel/sysfile.c: the system calls on files. Their arguments are as `argint` and `argstr` have
-- fetched them; `begin_op` and `end_op` around them are those of `Log`.
pub mod Descriptors
pub mod Names
pub mod Io
pub mod Open
pub mod Pipes
pub mod Regions
mod Tests

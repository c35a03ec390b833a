-- ===== src/Exec.antt =====
-- crates/syntropy-exec: the jail of paths, patches on files, the screens, and the worktrees.
pub mod Jail
pub mod RingBuffer
pub mod Diff
pub mod Screens
pub mod Worktree

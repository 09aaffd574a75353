-- ===== src/Sched.antt =====
-- kernel/sched.h: what the other files share of a task.
pub data TaskState : Type 0 where
  running ready blocked zombie dead : TaskState

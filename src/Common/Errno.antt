-- ===== src/Common/Errno.antt =====
-- kern/include/kern/errno.h: the codes that the modelled calls return, apart from 0 for success.
pub data Errno : Type 0 where
  eunimp enomem efault enametoolong einval emproc enproc e2big : Errno
  esrch echild eisdir enotdir enoent enfile ebadf eio espipe enospc : Errno

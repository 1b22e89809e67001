-- ===== src/Prelude/Errno.antt =====
-- The error codes of kern/include/kern/errno.h that the modelled functions return. A function that
-- returns an int and nothing else gives an `Option Errno`, with `none` for 0; one that also hands a
-- value back through a pointer gives a `Reply`.
pub data Errno : Type 0 where
  enomem efault enametoolong einval enotdir enoent enodev ebusy enfile ebadf enospc eexist eunimp :
      Errno
  eio efbig eisdir enotempty exdev : Errno

pub data Reply {ℓ} (A : Type ℓ) : Type ℓ where
  ok : A → Reply A
  err : Errno → Reply A

-- ===== src/Rwlock/Tests.antt =====
-- A readers' and writers' lock of kern/thread/synch.c that thread 1 has for reading, or thread 2 for writing.
use os161_kernel.Prelude.{ℕ, ◌≡◌, refl, arith}
use os161_kernel.Rwlock.{
  reading, writing, Rwlock, rw_create, start_reading, start_writing, acquire_read, acquire_write,
  call_read, call_write, Reachable, start, next,
}
use os161_kernel.Rwlock.Overlap.{writers-exclusion, rw_acquire-overlap}

abbrev one_reader : Rwlock
one_reader = acquire_read 1 rw_create

abbrev one_writer : Rwlock
one_writer = acquire_write 2 rw_create

one_reader-Reachable : Reachable one_reader
unfolding rw_create
one_reader-Reachable = next rw_create start (call_read 1 refl refl)

one_writer-Reachable : Reachable one_writer
unfolding rw_create
one_writer-Reachable = next rw_create start (call_write 2 refl refl)

writers-exclusion_example : ◌≡◌ {A = ℕ} 2 2
unfolding rw_create acquire_write start_writing
writers-exclusion_example = writers-exclusion one_writer-Reachable 2 2 refl refl

rw_acquire-overlap_example :
    (s' : Rwlock) × Reachable s' × (s'.stage 2 ≡ writing) × (s'.stage 3 ≡ reading)
unfolding rw_create acquire_read start_reading
rw_acquire-overlap_example =
    rw_acquire-overlap one_reader-Reachable 1 2 3 (omega arith) refl refl refl refl refl refl refl

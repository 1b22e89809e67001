-- ===== src/Directory/Tests.antt =====
-- A directory of SFS with two slots: the name "a", for inode 2, and an empty one.
use os161_kernel.Prelude.{ℕ, ◌≡◌, refl, true, Option, none, [], ◌∷◌, arith, if◌then◌else◌, ◌==◌}
use os161_kernel.Prelude.Errno.{Errno}
use os161_kernel.Directory.{
  Directory, filled, text, entry_text, same_text, sfs_dir_findname, sfs_dir_unlink,
}
use os161_kernel.Directory.Search.{IsDirectory, Looked, sfs_dir_findname-Looked}
use os161_kernel.Directory.Links.{Binds, Unlinked, sfs_dir_unlink_lem}

abbrev fine : ℕ → Option Errno
fine slot = none

abbrev small : Directory
small = record {
  is_dir = true;
  size = 128;
  entries = λ i.
      if i == 0 then record { ino = 2; name = filled (97 ∷ []) } else record { ino = 0; name = [] };
}

small-IsDirectory : IsDirectory small
small-IsDirectory = record {
  kind = refl;
  whole = refl;
  once = λ name i j hi hj ni nj. ground arith;
}

a-Binds : Binds small (97 ∷ []) 2
unfolding filled entry_text same_text text
a-Binds = record { slot = 0; inside = omega arith; here = refl; number = refl }

sfs_dir_findname-Looked_example :
    Looked fine fine (97 ∷ []) small-IsDirectory (sfs_dir_findname fine fine (97 ∷ []) small)
sfs_dir_findname-Looked_example =
    sfs_dir_findname-Looked fine fine (97 ∷ []) small-IsDirectory (λ i h. refl)

sfs_dir_unlink_lem_example :
    (sv' : Directory) × (sfs_dir_unlink fine fine a-Binds.slot small ≡ (none, sv'))
    × Unlinked small (97 ∷ []) sv'
sfs_dir_unlink_lem_example = sfs_dir_unlink_lem small-IsDirectory (97 ∷ []) fine fine a-Binds refl

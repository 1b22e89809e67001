-- ===== src/Directory.antt =====
-- The directories of SFS (kern/fs/sfs/sfs_vnode.c), by their entries. `read_error` and `write_error` are
-- what sfs_io answers for a slot, with `none` for 0; else it hands out and keeps what is written.
pub mod Names
pub mod Search
pub mod Links
mod Tests
use os161_kernel.Prelude.{
  ℕ, zero, suc, ◌+◌, ◌-◌, ◌*◌, ◌/◌, ◌%◌, Bool, true, false, Option, none, some, List, [], ◌∷◌, ◌++◌,
  ltb, leb, ◌==◌, ◌&&◌, not, if◌then◌else◌, update, length, set, replicate,
}
use os161_kernel.Prelude.Errno.{Errno, Reply, ok, err, enoent, eexist, enametoolong}
use os161_kernel.Prelude.Outcome.{Outcome, done, panic, ◌>>=◌, ◌>>◌, kassert}

-- struct sfs_dir; `name` is the array of 60 characters.
pub record Entry : Type 0 where
  pub ino : ℕ
  pub name : List ℕ

-- The vnode of a directory: sfi_size, and the entries in its blocks.
pub record Directory : Type 0 where
  pub is_dir : Bool
  pub size : ℕ
  pub entries : ℕ → Entry

abbrev pub sizeof_sfs_dir : ℕ
sizeof_sfs_dir = 64

abbrev pub sfs_namelen : ℕ
sfs_namelen = 60

-- A string, up to its null character.
pub text : List ℕ → List ℕ
text [] = []
text (c ∷ cs) = if c == 0 then [] else c ∷ text cs

-- strcmp answers 0.
pub same_text : List ℕ → List ℕ → Bool
same_text [] [] = true
same_text [] (d ∷ ds) = false
same_text (c ∷ cs) [] = false
same_text (c ∷ cs) (d ∷ ds) = (c == d) && same_text cs ds

-- bzero and strcpy into sfd_name.
pub filled : List ℕ → List ℕ
filled name = name ++ replicate (sfs_namelen - length name) 0

-- The name of an entry that was read, with the last character set to 0.
pub entry_text : Entry → List ℕ
entry_text tsd = text (set tsd.name (sfs_namelen - 1) 0)

pub sfs_dir_nentries : Directory → Outcome ℕ
sfs_dir_nentries sv =
    kassert sv.is_dir
    >> (if sv.size % sizeof_sfs_dir == 0 then done (sv.size / sizeof_sfs_dir) else panic)

-- What sfs_dir_findname hands back: the inode number with the slot, and an empty slot.
pub record Found : Type 0 where
  pub entry : Option (ℕ × ℕ)
  pub emptyslot : Option ℕ

abbrev pub is_none : Option (ℕ × ℕ) → Bool
is_none none = true
is_none (some _) = false

module _ (read_error write_error : ℕ → Option Errno) where
  -- An entry that is not all in the file stops the kernel.
  pub sfs_readdir : Directory → ℕ → Outcome (Reply Entry)
  sfs_readdir sv slot = elim (read_error slot) [
    | some e ↦ done (err e)
    | none ↦
        if leb ((slot + 1) * sizeof_sfs_dir) sv.size then done (ok (sv.entries slot)) else panic
  ]

  pub sfs_writedir : Directory → Entry → ℕ → Option Errno × Directory
  sfs_writedir sv sd slot = elim (write_error slot) [
    | some e ↦ (some e, sv)
    | none ↦
        let endpos = (slot + 1) * sizeof_sfs_dir in
        (
          none,
          record sv {
            size = if ltb sv.size endpos then endpos else sv.size;
            entries = update sv.entries slot sd;
          },
        )
  ]

  -- The body of the loop of sfs_dir_findname for slot `i` once the entry is read.
  pub look_at : List ℕ → ℕ → Entry → Found → Outcome Found
  look_at name i tsd f =
      if tsd.ino == 0
      then done (record f { emptyslot = some i })
      else (if same_text (entry_text tsd) name
          then (kassert (is_none f.entry) >> done (record f { entry = some (tsd.ino, i) }))
          else done f)

  -- The loop from slot `i` on, over the rounds left.
  pub find_loop : ℕ → ℕ → List ℕ → Directory → Found → Outcome (Option Errno × Found)
  find_loop zero i name sv f = done (none, f)
  find_loop (suc n) i name sv f = sfs_readdir sv i >>= λ r. elim r [
    | err e ↦ done (some e, f)
    | ok tsd ↦ look_at name i tsd f >>= λ g. find_loop n (i + 1) name sv g
  ]

  pub sfs_dir_findname : List ℕ → Directory → Outcome (Option Errno × Found)
  sfs_dir_findname name sv = sfs_dir_nentries sv >>= λ n.
      find_loop n 0 name sv (record { entry = none; emptyslot = none }) >>= λ r. done (elim r.0 [
        | some e ↦ (some e, r.1)
        | none ↦ ((if is_none r.1.entry then some enoent else none), r.1)
      ])

  -- sfs_dir_link once the name is known not to be there.
  pub add_entry : List ℕ → ℕ → Option ℕ → Directory → Outcome (Option Errno × Directory)
  add_entry name ino emptyslot sv =
      let sd : Entry = record { ino = ino; name = filled name } in
      if ltb sfs_namelen (length name + 1) then done (some enametoolong, sv) else elim emptyslot [
        | some slot ↦ done (sfs_writedir sv sd slot)
        | none ↦ sfs_dir_nentries sv >>= λ n. done (sfs_writedir sv sd n)
      ]

  pub sfs_dir_link : List ℕ → ℕ → Directory → Outcome (Option Errno × Directory)
  sfs_dir_link name ino sv = sfs_dir_findname name sv >>= λ r. elim r.0 [
    | none ↦ done (some eexist, sv)
    | some enoent ↦ add_entry name ino r.1.emptyslot sv
    | some e ↦ done (some e, sv)
  ]

  pub sfs_dir_unlink : ℕ → Directory → Option Errno × Directory
  sfs_dir_unlink slot sv = sfs_writedir sv (record { ino = 0; name = replicate sfs_namelen 0 }) slot

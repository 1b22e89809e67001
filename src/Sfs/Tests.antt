-- ===== src/Sfs/Tests.antt =====
-- A disk of eight blocks with one file on it: block 0 of the file is block 2 of the disk, block 3
-- lists the blocks 15 and 17 of the file, which are 4 and 5.
use os161_kernel.Prelude.{
  ℕ, zero, suc, ◌-◌, ◌/◌, ◌%◌, ◌≤◌, ◌<◌, ◌≡◌, refl, ◌≢◌, ◌⊎◌, inl, inr, Bool, true, false, none,
  some, [], ◌∷◌, ◌==◌, arith, subst, sym, get_or, if◌then◌else◌,
}
use os161_kernel.Prelude.Errno.{eio}
use os161_kernel.Prelude.Outcome.{done}
use os161_kernel.Bitmap.{Bitmap}
use os161_kernel.Bitmap.Word.{bit, bit-allbits, word_allbits}
use os161_kernel.Bitmap.Marks.{test}
use os161_kernel.Sfs.{Fs, File, sfs_bmap, sfs_truncate}
use os161_kernel.Sfs.Blocks.{used, IsMap}
use os161_kernel.Sfs.Owned.{block_of, IsFile}
use os161_kernel.Sfs.Answers.{Maps}
use os161_kernel.Sfs.Mapping.{read_answer, sfs_bmap_lem, sfs_bmap-read}
use os161_kernel.Sfs.Device.{retry, Retried, sfs_rwblock, sfs_rwblock-Retried}
use os161_kernel.Sfs.Truncated.{Truncated}
use os161_kernel.Sfs.Cut.{sfs_truncate_lem, truncate-write_error}

abbrev no_error : ℕ → Bool
no_error block = false

abbrev six_used : Bitmap
six_used = record { nbits = 8; v = 63 ∷ [] }

abbrev words : ℕ → ℕ → ℕ
words block i = if block == 3 then (if i == 0 then 4 else (if i == 2 then 5 else 0)) else 0

abbrev disk8 : Fs
disk8 = record { freemap = six_used; freemapdirty = false; nblocks = 8; disk = words }

abbrev letter : File
letter = record {
  ino = 1;
  size = 9000;
  direct = λ i. if i == 0 then 2 else 0;
  indirect = 3;
  dirty = false;
}

six_used-words : (i : ℕ) → get_or (63 ∷ []) i word_allbits < 256
six_used-words zero = omega arith
six_used-words (suc i) = omega arith

leftover : (i : ℕ) → 8 ≤ i → test (63 ∷ []) i ≡ true
leftover i h =
    let e : i / 8 ≡ suc (i / 8 - 1) = omega arith in rw e (bit-allbits (i % 8) (omega arith))

disk8-IsMap : IsMap disk8
unfolding bit
disk8-IsMap = record {
  valid = record { room = omega arith; sized = refl; words = six_used-words; leftover = leftover };
  inside = omega arith;
  reserved = refl;
  past = leftover;
}

-- The blocks that there are.
letter_blocks :
    (i : ℕ)
    → block_of disk8 letter i ≢ 0
    → ((i ≡ 0) × (block_of disk8 letter i ≡ 2))
      ⊎ (((i ≡ 15) × (block_of disk8 letter i ≡ 4)) ⊎ ((i ≡ 17) × (block_of disk8 letter i ≡ 5)))
unfolding block_of
letter_blocks i h = ground arith

letter-used : (i : ℕ) → block_of disk8 letter i ≢ 0 → used disk8 (block_of disk8 letter i) ≡ true
unfolding bit
letter-used i h = elim (letter_blocks i h) [
  | inl (_, e) ↦ subst (λ b. used disk8 b ≡ true) (sym e) refl
  | inr (inl (_, e)) ↦ subst (λ b. used disk8 b ≡ true) (sym e) refl
  | inr (inr (_, e)) ↦ subst (λ b. used disk8 b ≡ true) (sym e) refl
]

letter-IsFile : IsFile disk8 letter
unfolding bit
letter-IsFile = record {
  map = disk8-IsMap;
  owns = record {
    low = λ i h. ground (arith, letter_blocks i h);
    taken = letter-used;
    apart = λ i j h e. ground (arith, letter_blocks i h, letter_blocks j);
    index_low = λ h. omega arith;
    index_taken = λ h. refl;
    index_apart = λ h i e. ground (arith, letter_blocks i);
  };
}

sfs_bmap_lem_example :
    Maps no_error no_error 1 disk8 letter (sfs_bmap no_error no_error 1 true disk8 letter)
sfs_bmap_lem_example = sfs_bmap_lem no_error no_error letter-IsFile 1

sfs_bmap-read_example :
    sfs_bmap no_error no_error 17 false disk8 letter
    ≡ done (read_answer no_error no_error 17 disk8 letter, disk8, letter)
sfs_bmap-read_example = sfs_bmap-read no_error no_error letter-IsFile 17

sfs_truncate_lem_example :
    (fs' : Fs) × (sv' : File) × (sfs_truncate no_error no_error 8192 disk8 letter
      ≡ done (none, fs', sv'))
    × (sv'.size ≡ 8192)
    × Truncated 16 disk8 letter fs' sv'
sfs_truncate_lem_example =
    sfs_truncate_lem no_error no_error letter-IsFile 8192 (omega arith) refl refl

abbrev bad_three : ℕ → Bool
bad_three block = block == 3

truncate-write_error_example :
    (fs' : Fs) × (sv' : File) × (sfs_truncate no_error bad_three 8192 disk8 letter
      ≡ done (some eio, fs', sv'))
    × (block_of fs' sv' 17 ≡ block_of disk8 letter 17)
    × (used fs' (block_of disk8 letter 17) ≡ false)
unfolding block_of
truncate-write_error_example =
    truncate-write_error no_error bad_three letter-IsFile 8192 (omega arith) 17 15 (omega arith)
      refl (omega arith) (omega arith) refl (omega arith) refl refl

-- Two attempts fail, the third one succeeds.
abbrev third_time : ℕ → ℕ
third_time j = if j == 2 then 0 else 32

sfs_rwblock-third_time : sfs_rwblock third_time ≡ done 0
unfolding sfs_rwblock retry
sfs_rwblock-third_time = refl

sfs_rwblock-Retried_example : Retried third_time (sfs_rwblock third_time)
sfs_rwblock-Retried_example = sfs_rwblock-Retried third_time

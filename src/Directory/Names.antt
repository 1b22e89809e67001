-- ===== src/Directory/Names.antt =====
-- The names in the entries of a directory of SFS (kern/fs/sfs/sfs_vnode.c).
use os161_kernel.Prelude.{
  ℕ, zero, suc, ◌-◌, ◌≤◌, ◌<◌, ◌≡◌, refl, ◌≢◌, true, false, List, [], ◌∷◌, ◌++◌, ◌==◌, arith,
  length, set, replicate, ==-true, Bool-cases, inl, inr,
}
use os161_kernel.Prelude.Members.{has}
use os161_kernel.Directory.{text, same_text, filled, entry_text, sfs_namelen}

pub same_text_refl : (a : List ℕ) → same_text a a ≡ true
unfolding same_text
same_text_refl [] = refl
same_text_refl (c ∷ cs) =
    let self : (c == c) ≡ true = ==-true refl in ground (arith, self, same_text_refl cs)

pub same_text-eq : (a b : List ℕ) → same_text a b ≡ true → a ≡ b
unfolding same_text
same_text-eq [] [] h = refl
same_text-eq [] (d ∷ ds) h = absurd cc
same_text-eq (c ∷ cs) [] h = absurd cc
same_text-eq (c ∷ cs) (d ∷ ds) h =
    let e : c ≡ d = ground arith in
    let es : cs ≡ ds = same_text-eq cs ds (ground arith) in rw (e, es)

pub same_text-ne : (a b : List ℕ) → a ≢ b → same_text a b ≡ false
same_text-ne a b ne = elim (Bool-cases (same_text a b)) [
  | inl e ↦ absurd (ne (same_text-eq a b e))
  | inr e ↦ e
]

text-padded :
    (name : List ℕ) (k i : ℕ)
    → has 0 name ≡ false
    → length name ≤ i
    → text (set (name ++ replicate k 0) i 0) ≡ name
unfolding text
text-padded [] zero i n h = refl
text-padded [] (suc k) zero n h = refl
text-padded [] (suc k) (suc i) n h = refl
text-padded (c ∷ cs) k zero n h = absurd (omega (arith, h))
text-padded (c ∷ cs) k (suc i) n h =
    let rest : text (set (cs ++ replicate k 0) i 0) ≡ cs =
      text-padded cs k i (ground arith) (omega (arith, h)) in
    let nz : (c == 0) ≡ false = ground arith in rw (nz, rest) refl

-- A name that fits is read back as it was written.
pub entry_text-filled :
    (ino : ℕ) (name : List ℕ)
    → has 0 name ≡ false
    → length name < sfs_namelen
    → entry_text (record { ino = ino; name = filled name }) ≡ name
unfolding entry_text filled
entry_text-filled ino name n h = text-padded name (sfs_namelen - length name) 59 n (omega arith)

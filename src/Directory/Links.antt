-- ===== src/Directory/Links.antt =====
-- sfs_dir_link and sfs_dir_unlink (kern/fs/sfs/sfs_vnode.c).
use os161_kernel.Prelude.{
  ℕ, ◌+◌, ◌*◌, ◌%◌, ◌≤◌, ◌<◌, ◌≡◌, refl, ap, ◌≢◌, ◌↔◌, inl, inr, true, false, Option, none, some,
  List, ltb, ◌==◌, ◌&&◌, not, arith, if◌then◌else◌, sym, ◌∙◌, subst, Bool-cases, ℕ_discrete,
  ==-true, length, update, replicate,
}
use os161_kernel.Prelude.Errno.{Errno, eexist, enametoolong}
use os161_kernel.Prelude.Outcome.{Outcome, done}
use os161_kernel.Directory.{
  Entry, Directory, same_text, entry_text, sizeof_sfs_dir, sfs_namelen, sfs_writedir,
  sfs_dir_unlink,
}
use os161_kernel.Directory.Names.{same_text-eq}
use os161_kernel.Directory.Search.{named, slots, IsDirectory}

-- The name `name` is bound to the inode `ino`.
pub record Binds (sv : Directory) (name : List ℕ) (ino : ℕ) : Type 0 where
  pub slot : ℕ
  pub inside : slot < slots sv
  pub here : named name sv slot ≡ true
  pub number : (sv.entries slot).ino ≡ ino

-- The directory with the entry in the slot `k`, which is one of its slots or the next one.
abbrev pub with_entry : Directory → Entry → ℕ → Directory
with_entry sv sd k =
    let endpos = (k + 1) * sizeof_sfs_dir in
    record sv {
      size = if ltb sv.size endpos then endpos else sv.size;
      entries = update sv.entries k sd;
    }

module _ {sv : Directory} (d : IsDirectory sv) (k : ℕ) (near : k ≤ slots sv) where
  slots_grow : (sd : Entry) → slots sv ≤ slots (with_entry sv sd k)
  slots_grow sd = ground arith

  slots_within : (sd : Entry) (j : ℕ) → j < slots (with_entry sv sd k) → j ≢ k → j < slots sv
  slots_within sd j h ne = ground (arith, d.whole)

  still_whole : (sd : Entry) → (with_entry sv sd k).size % sizeof_sfs_dir ≡ 0
  still_whole sd = ground (arith, d.whole)

  named_else :
      (sd : Entry) (name : List ℕ) (j : ℕ)
      → j ≢ k
      → named name (with_entry sv sd k) j ≡ named name sv j
  named_else sd name j ne = ground (arith, ne)

  named_here :
      (sd : Entry) (name : List ℕ)
      → named name (with_entry sv sd k) k ≡ (not (sd.ino == 0) && same_text (entry_text sd) name)
  named_here sd name = let self : (k == k) ≡ true = ==-true refl in rw self refl

  number_else :
      (sd : Entry) (j : ℕ) → j ≢ k → ((with_entry sv sd k).entries j).ino ≡ (sv.entries j).ino
  number_else sd j ne = ground (arith, ne)

  -- The names stay different if no other slot has the new one.
  with_entry-IsDirectory :
      (sd : Entry)
      → ((name : List ℕ) (j : ℕ)
          → j < slots sv
          → j ≢ k
          → named name (with_entry sv sd k) k ≡ true
          → named name sv j ≡ true
          → ⊥)
      → IsDirectory (with_entry sv sd k)
  with_entry-IsDirectory sd new = record {
    kind = d.kind;
    whole = still_whole sd;
    once = λ name i j hi hj ni nj. elim (ℕ_discrete i k) [
      | yes p ↦ elim (ℕ_discrete j k) [
        | yes q ↦ p ∙ sym q
        | no nq ↦ absurd (
            new name j (slots_within sd j hj nq) nq
              (subst (λ i. named name (with_entry sv sd k) i ≡ true) p ni)
              (sym (named_else sd name j nq) ∙ nj))
      ]
      | no np ↦ elim (ℕ_discrete j k) [
        | yes q ↦ absurd (
            new name i (slots_within sd i hi np) np
              (subst (λ i. named name (with_entry sv sd k) i ≡ true) q nj)
              (sym (named_else sd name i np) ∙ ni))
        | no nq ↦
            d.once name i j (slots_within sd i hi np) (slots_within sd j hj nq)
              (sym (named_else sd name i np) ∙ ni) (sym (named_else sd name j nq) ∙ nj)
      ]
    ];
  }

  -- A name that neither the old nor the new entry of the slot has keeps its inode.
  Binds-else :
      (sd : Entry) (name : List ℕ) (m : ℕ)
      → (k < slots sv → named name sv k ≡ false)
      → named name (with_entry sv sd k) k ≡ false
      → Binds (with_entry sv sd k) name m ↔ Binds sv name m
  Binds-else sd name m old new = (
    λ b.
        let ne : b.slot ≢ k =
          λ e. absurd (ground (arith, new, ap (named name (with_entry sv sd k)) e, b.here)) in
        record {
          slot = b.slot;
          inside = slots_within sd b.slot b.inside ne;
          here = sym (named_else sd name b.slot ne) ∙ b.here;
          number = sym (number_else sd b.slot ne) ∙ b.number;
        },
    λ b.
        let ne : b.slot ≢ k = λ e.
          absurd (ground (arith, old (omega (arith, e, b.inside)), ap (named name sv) e, b.here)) in
        record {
          slot = b.slot;
          inside = omega (arith, slots_grow sd, b.inside);
          here = named_else sd name b.slot ne ∙ b.here;
          number = number_else sd b.slot ne ∙ b.number;
        },
  )

-- After a change of one name: it is bound to `ino`, and all others are as before.
pub record Linked (sv : Directory) (name : List ℕ) (ino : ℕ) (sv' : Directory) : Type 0 where
  pub directory : IsDirectory sv'
  pub bound : Binds sv' name ino
  pub others : (n : List ℕ) → n ≢ name → (m : ℕ) → Binds sv' n m ↔ Binds sv n m

pub record Unlinked (sv : Directory) (name : List ℕ) (sv' : Directory) : Type 0 where
  pub directory : IsDirectory sv'
  pub unbound : (m : ℕ) → ¬ Binds sv' name m
  pub others : (n : List ℕ) → n ≢ name → (m : ℕ) → Binds sv' n m ↔ Binds sv n m

pub data LinkResult (write_error : ℕ → Option Errno) (sv : Directory) (name : List ℕ) (ino : ℕ)
    (r : Outcome (Option Errno × Directory)) : Type 0 where
  already :
      (m : ℕ) → Binds sv name m → r ≡ done (some eexist, sv) → LinkResult write_error sv name ino r
  too_long :
      ((m : ℕ) → ¬ Binds sv name m)
      → sfs_namelen ≤ length name
      → r ≡ done (some enametoolong, sv)
      → LinkResult write_error sv name ino r
  linked :
      (sv' : Directory)
      → ((m : ℕ) → ¬ Binds sv name m)
      → length name < sfs_namelen
      → r ≡ done (none, sv')
      → Linked sv name ino sv'
      → LinkResult write_error sv name ino r
  not_written :
      (k : ℕ) (e : Errno)
      → ((m : ℕ) → ¬ Binds sv name m)
      → length name < sfs_namelen
      → (k < slots sv → (sv.entries k).ino ≡ 0)
      → k ≤ slots sv
      → write_error k ≡ some e
      → r ≡ done (some e, sv)
      → LinkResult write_error sv name ino r

module _ {sv : Directory} (d : IsDirectory sv) (name : List ℕ) where
  module _ (read_error write_error : ℕ → Option Errno) where
    sfs_writedir-done :
        (sd : Entry) (k : ℕ)
        → write_error k ≡ none
        → sfs_writedir read_error write_error sv sd k ≡ (none, with_entry sv sd k)
    unfolding sfs_writedir
    sfs_writedir-done sd k h = ground (arith, h)

    -- In a directory whose names are all different, sfs_dir_unlink of the slot of a bound name, if it can be
    -- written, takes the binding away and leaves all other names as they are, and all different.
    pub sfs_dir_unlink_lem :
        {m : ℕ} (b : Binds sv name m)
        → write_error b.slot ≡ none
        → (sv' : Directory) × (sfs_dir_unlink read_error write_error b.slot sv ≡ (none, sv'))
          × Unlinked sv name sv'
    unfolding sfs_dir_unlink
    sfs_dir_unlink_lem b writable = (
      with_entry sv sd b.slot,
      sfs_writedir-done sd b.slot writable,
      record {
        directory =
            with_entry-IsDirectory d b.slot near sd
              (λ n j h ne here old. ground (arith, gone n, here));
        unbound = λ m c. left c;
        others = λ n ne m. Binds-else d b.slot near sd n m (λ h. not_it n ne) (gone n);
      },
    )
      where
        sd : Entry
        sd = record { ino = 0; name = replicate sfs_namelen 0 }

        near : b.slot ≤ slots sv
        near = omega (arith, b.inside)

        gone : (n : List ℕ) → named n (with_entry sv sd b.slot) b.slot ≡ false
        gone n = named_here d b.slot near sd n

        left : {m : ℕ} → ¬ Binds (with_entry sv sd b.slot) name m
        left c = elim (ℕ_discrete c.slot b.slot) [
          | yes e ↦ ground (arith, gone name, ap (named name (with_entry sv sd b.slot)) e, c.here)
          | no ne ↦ ne (
              d.once name c.slot b.slot (slots_within d b.slot near sd c.slot c.inside ne) b.inside
                (sym (named_else d b.slot near sd name c.slot ne) ∙ c.here) b.here)
        ]

        not_it : (n : List ℕ) → n ≢ name → named n sv b.slot ≡ false
        not_it n ne = elim (Bool-cases (same_text (entry_text (sv.entries b.slot)) n)) [
          | inl e ↦ absurd (
              ne (
                sym (same_text-eq _ n e)
                ∙ same_text-eq (entry_text (sv.entries b.slot)) name (ground (arith, b.here))))
          | inr e ↦ ground arith
        ]

-- ===== src/Directory/Search.antt =====
-- sfs_dir_findname (kern/fs/sfs/sfs_vnode.c).
use os161_kernel.Prelude.{
  ℕ, zero, suc, ◌+◌, ◌/◌, ◌%◌, ◌<◌, ◌≡◌, refl, ap, ◌≢◌, inl, inr, Bool, true, false, Option, none,
  some, List, ◌==◌, ◌&&◌, not, arith, if◌then◌else◌, sym, ◌∙◌, subst, Bool-cases, ℕ_discrete,
  ==-true,
}
use os161_kernel.Prelude.Errno.{Errno, ok, enoent}
use os161_kernel.Prelude.Outcome.{Outcome, done}
use os161_kernel.Directory.{
  Directory, Found, is_none, same_text, entry_text, sizeof_sfs_dir, sfs_dir_nentries, sfs_readdir,
  look_at, find_loop, sfs_dir_findname,
}

-- Slot `i` holds an entry of that name.
abbrev pub named : List ℕ → Directory → ℕ → Bool
named name sv i = not ((sv.entries i).ino == 0) && same_text (entry_text (sv.entries i)) name

abbrev pub slots : Directory → ℕ
slots sv = sv.size / sizeof_sfs_dir

-- A directory whose names are all different.
pub record IsDirectory (sv : Directory) : Type 0 where
  pub kind : sv.is_dir ≡ true
  pub whole : sv.size % sizeof_sfs_dir ≡ 0
  pub once :
      (name : List ℕ) (i j : ℕ)
      → i < slots sv
      → j < slots sv
      → named name sv i ≡ true
      → named name sv j ≡ true
      → i ≡ j

-- What the search knows after the slots before `i`.
pub record Seen (name : List ℕ) (sv : Directory) (i : ℕ) (f : Found) : Type 0 where
  pub absent : f.entry ≡ none → (j : ℕ) → j < i → named name sv j ≡ false
  pub present :
      (ino k : ℕ)
      → f.entry ≡ some (ino, k)
      → (k < i) × (named name sv k ≡ true) × ((sv.entries k).ino ≡ ino)
  pub full : f.emptyslot ≡ none → (j : ℕ) → j < i → (sv.entries j).ino ≢ 0
  pub room : (k : ℕ) → f.emptyslot ≡ some k → (k < i) × ((sv.entries k).ino ≡ 0)

some-injective : {a b : ℕ} → some a ≡ some b → a ≡ b
some-injective e = cc

first_of : Option (ℕ × ℕ) → ℕ
first_of none = 0
first_of (some p) = p.0

second_of : Option (ℕ × ℕ) → ℕ
second_of none = 0
second_of (some p) = p.1

module _ (read_error write_error : ℕ → Option Errno) (name : List ℕ) {sv : Directory}
    (d : IsDirectory sv) where
  look_at-Seen :
      {i : ℕ} {f : Found}
      → i < slots sv
      → Seen name sv i f
      → (g : Found) × (look_at read_error write_error name i (sv.entries i) f ≡ done g)
        × Seen name sv (i + 1) g
  unfolding look_at second_of first_of
  look_at-Seen {i} {f} h s = elim (ℕ_discrete (sv.entries i).ino 0) [
    | yes z ↦ (
      record f { emptyslot = some i },
      ground arith,
      record {
        absent = λ e j q. elim (ℕ_discrete i j) [
          | yes p ↦ subst (λ j. named name sv j ≡ false) p (ground arith)
          | no np ↦ s.absent e j (omega arith)
        ];
        present = λ ino k e. let (lt, n, q) = s.present ino k e in (omega arith, n, q);
        full = λ e. absurd cc;
        room = λ k e.
            let same : i ≡ k = some-injective e in
            (omega (arith, same), ap (λ j. (sv.entries j).ino) (sym same) ∙ z);
      },
    )
    | no nz ↦ elim (Bool-cases (same_text (entry_text (sv.entries i)) name)) [
      | inl here ↦ at_name f.entry refl nz here
      | inr other ↦ (
        f,
        ground arith,
        record {
          absent = λ e j q. elim (ℕ_discrete i j) [
            | yes p ↦ subst (λ j. named name sv j ≡ false) p (ground arith)
            | no np ↦ s.absent e j (omega arith)
          ];
          present = λ ino k e. let (lt, n, q) = s.present ino k e in (omega arith, n, q);
          full = λ e j q. elim (ℕ_discrete i j) [
            | yes p ↦ subst (λ j. (sv.entries j).ino ≢ 0) p nz
            | no np ↦ s.full e j (omega arith)
          ];
          room = λ k e. let (lt, q) = s.room k e in (omega arith, q);
        },
      )
    ]
  ]
    where
      at_name :
          (o : Option (ℕ × ℕ))
          → f.entry ≡ o
          → (sv.entries i).ino ≢ 0
          → same_text (entry_text (sv.entries i)) name ≡ true
          → (g : Found) × (look_at read_error write_error name i (sv.entries i) f ≡ done g)
            × Seen name sv (i + 1) g
      at_name (some (ino, k)) e nz here =
          let (lt, n, q) = s.present ino k e in
          absurd (omega (arith, lt, d.once name k i (omega (arith, lt, h)) h n (ground arith)))
      at_name none e nz here =
          let free : is_none f.entry ≡ true = ap is_none e in
          (
            record f { entry = some ((sv.entries i).ino, i) },
            ground (arith, free),
            record {
              absent = λ e j q. absurd cc;
              present = λ ino k e.
                  let same : i ≡ k = ap second_of e in
                  let id : (sv.entries i).ino ≡ ino = ap first_of e in
                  (
                    omega (arith, same),
                    subst (λ j. named name sv j ≡ true) same (ground arith),
                    ap (λ j. (sv.entries j).ino) (sym same) ∙ id,
                  );
              full = λ e j q. elim (ℕ_discrete i j) [
                | yes p ↦ subst (λ j. (sv.entries j).ino ≢ 0) p nz
                | no np ↦ s.full e j (omega arith)
              ];
              room = λ k e. let (lt, q) = s.room k e in (omega arith, q);
            },
          )

  sfs_readdir-done :
      ((i : ℕ) → i < slots sv → read_error i ≡ none)
      → (i : ℕ) → i < slots sv
      → sfs_readdir read_error write_error sv i ≡ done (ok (sv.entries i))
  unfolding sfs_readdir
  sfs_readdir-done readable i h = ground (arith, readable i h)

  find_loop-Seen :
      ((i : ℕ) → i < slots sv → read_error i ≡ none)
      → (n : ℕ) {i : ℕ} {f : Found} → i + n ≡ slots sv
      → Seen name sv i f
      → (g : Found) × (find_loop read_error write_error n i name sv f ≡ done (none, g))
        × Seen name sv (slots sv) g
  unfolding find_loop
  find_loop-Seen readable zero {i} {f} e s =
      (f, refl, subst (λ k. Seen name sv k f) (omega arith) s)
  find_loop-Seen readable (suc n) {i} {f} e s =
      let (g, look, s') = look_at-Seen (omega arith) s in
      let (g2, rest, s2) = find_loop-Seen readable n (omega arith) s' in
      (g2, rw (sfs_readdir-done readable i (omega arith), look) rest, s2)

  -- What sfs_dir_findname comes to: the entry of the name, or ENOENT with an empty slot if there is one.
  pub data Looked (r : Outcome (Option Errno × Found)) : Type 0 where
    there :
        (k : ℕ) (empty : Option ℕ)
        → r ≡ done (none, record { entry = some ((sv.entries k).ino, k); emptyslot = empty })
        → k < slots sv
        → named name sv k ≡ true
        → Looked r
    not_there :
        (f : Found)
        → r ≡ done (some enoent, f)
        → ((j : ℕ) → j < slots sv → named name sv j ≡ false)
        → (f.emptyslot ≡ none → (j : ℕ) → j < slots sv → (sv.entries j).ino ≢ 0)
        → ((k : ℕ) → f.emptyslot ≡ some k → (k < slots sv) × ((sv.entries k).ino ≡ 0))
        → Looked r

  pub sfs_dir_nentries-done : sfs_dir_nentries sv ≡ done (slots sv)
  unfolding sfs_dir_nentries
  sfs_dir_nentries-done = rw (d.kind, ==-true d.whole) refl

  -- In a directory whose names are all different and whose slots can be read, sfs_dir_findname returns
  -- the inode number and the slot of the entry of that name if there is one, and else ENOENT, with
  -- an empty slot if there is one; its KASSERT holds.
  pub sfs_dir_findname-Looked :
      ((i : ℕ) → i < slots sv → read_error i ≡ none)
      → Looked (sfs_dir_findname read_error write_error name sv)
  unfolding sfs_dir_findname
  sfs_dir_findname-Looked readable =
      let (g, run, s) =
        find_loop-Seen readable (slots sv) {i = 0} {f = record { entry = none; emptyslot = none }}
          (omega arith)
          (record {
            absent = λ e j q. absurd (omega arith);
            present = λ ino k e. absurd cc;
            full = λ e j q. absurd (omega arith);
            room = λ k e. absurd cc;
          }) in
      finish g (rw (sfs_dir_nentries-done, run) refl) s g.entry refl
    where
      finish :
          (g : Found)
          → sfs_dir_findname read_error write_error name sv
            ≡ done ((if is_none g.entry then some enoent else none), g)
          → Seen name sv (slots sv) g
          → (o : Option (ℕ × ℕ)) → g.entry ≡ o
          → Looked (sfs_dir_findname read_error write_error name sv)
      finish g run s none e =
          not_there g (run ∙ ap (λ o. done ((if is_none o then some enoent else none), g)) e)
            (s.absent e) s.full s.room
      finish g run s (some (ino, k)) e =
          let (lt, n, q) = s.present ino k e in
          there k g.emptyslot
            (run
              ∙ ap
                  (λ (o : Option (ℕ × ℕ)). done (
                    (if is_none o then some enoent else none),
                    record { entry = o; emptyslot = g.emptyslot },
                  ))
                  (e ∙ ap (λ (x : ℕ). some (x, k)) (sym q)))
            lt n

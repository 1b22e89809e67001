-- ===== src/Sfs/Indirect.antt =====
-- sfs_bmap (kern/fs/sfs/sfs_vnode.c) for the blocks that the indirect block lists.
use os161_kernel.Prelude.{
  ℕ, ◌-◌, ◌≤◌, ◌<◌, ◌≡◌, refl, ◌≢◌, inl, inr, Bool, true, ◌==◌, update, arith, ap, if◌then◌else◌,
  sym, ◌∙◌, subst, Bool-cases, ==-false, ℕ_discrete,
}
use os161_kernel.Prelude.Errno.{Reply, ok}
use os161_kernel.Prelude.Outcome.{Outcome}
use os161_kernel.Sfs.{Fs, File, sfs_ndirect, sfs_wblock, sfs_rblock, bmap_entry, bmap_indirect}
use os161_kernel.Sfs.Blocks.{
  used, IsMap, Keeps, Keeps-refl, IsFresh, nothing, unclear, handed, sfs_balloc_lem,
}
use os161_kernel.Sfs.Owned.{
  max_blocks, block_of, IsFile, Owns-attach_index, block_of-same, block_of-entry, block_of_in,
  block_of-zeros,
}
use os161_kernel.Sfs.Answers.{
  Answer, existing, fresh, too_big, no_space, failed, Maps, hand_back_lem, grown, attached,
}

module _ (read_error write_error : ℕ → Bool) where
  module _ (i : ℕ) (lo : sfs_ndirect ≤ i) (hi : i < max_blocks) where
    bmap_entry_lem :
        {fs : Fs} {sv : File}
        → IsFile fs sv
        → (words : ℕ → ℕ) → sv.indirect ≢ 0
        → words ≡ fs.disk sv.indirect
        → Maps read_error write_error i fs sv
            (bmap_entry read_error write_error (i - sfs_ndirect) sv.indirect words true fs sv)
    unfolding bmap_entry sfs_wblock
    bmap_entry_lem {fs} {sv} f words nz same = elim (ℕ_discrete (words (i - sfs_ndirect)) 0) [
      | no some_block ↦
          grown f f.map (λ b. Keeps-refl b fs)
            (ground (arith, hand_back_lem f i (words (i - sfs_ndirect)) at))
            (λ e.
              subst (λ x. Answer read_error write_error i fs sv fs sv (ok x)) at
                (existing (λ z. some_block (sym at ∙ z)) e))
      | yes z ↦ elim (sfs_balloc_lem read_error write_error f.map) [
        | nothing e all ↦ grown f f.map (λ b. Keeps-refl b fs) (ground arith) (no_space all)
        | unclear b fs' e bad m k ↦ grown f m k (ground arith) (failed b (inr bad))
        | handed b fs' e m k x ↦ elim (Bool-cases (write_error sv.indirect)) [
          | inl bad ↦ grown f m k (ground arith) (failed sv.indirect (inr bad))
          | inr good ↦
              attached sv f (at ∙ z) (map b m) (keeps b k) (zeros b k x) refl
                (λ j.
                  block_of-entry fs' sv i b words lo hi nz (same ∙ sym (kept k)) j
                  ∙ ap (λ (v : ℕ). if i == j then b else v)
                      (block_of-same fs fs' sv sv (λ n. kept k) (λ q. refl) refl j))
                (ground arith)
        ]
      ]
    ]
      where
        at : block_of fs sv i ≡ words (i - sfs_ndirect)
        at = block_of_in fs sv i lo hi nz ∙ ap (λ w. w (i - sfs_ndirect)) (sym same)

        kept : {fs' : Fs} → ((b : ℕ) → Keeps b fs fs') → fs'.disk sv.indirect ≡ fs.disk sv.indirect
        kept k = (k 0).words sv.indirect (f.owns.index_taken nz) nz

        filled : ℕ → Fs → Fs
        filled b fs' = record fs' {
          disk = update fs'.disk sv.indirect (update words (i - sfs_ndirect) b);
        }

        map : {fs' : Fs} (b : ℕ) → IsMap fs' → IsMap (filled b fs')
        map b m = record {
          valid = m.valid;
          inside = m.inside;
          reserved = m.reserved;
          past = m.past;
        }

        keeps :
            {fs' : Fs} (b : ℕ) → ((o : ℕ) → Keeps o fs fs') → Keeps sv.indirect fs (filled b fs')
        keeps b k = record {
          size = (k 0).size;
          marks = (k 0).marks;
          words = λ j u ne. ground (arith, (k sv.indirect).words j u ne);
        }

        zeros :
            {fs' : Fs} (b : ℕ)
            → ((o : ℕ) → Keeps o fs fs')
            → IsFresh b fs fs'
            → IsFresh b fs (filled b fs')
        zeros b k x = record {
          nonzero = x.nonzero;
          low = x.low;
          free = x.free;
          taken = x.taken;
          zeros =
              rw
                (==-false (λ (q : sv.indirect ≡ b).
                  ground (arith, x.free, ap (used fs) q, f.owns.index_taken nz)))
                x.zeros;
        }

    -- Whoever goes on from a state in which only the indirect block is new.
    onwards :
        {b : ℕ} {fs fs1 : Fs} {sv : File} {o : Outcome (Reply ℕ × Fs × File)}
        → ((c : ℕ) → Keeps c fs fs1)
        → IsFresh b fs fs1
        → ((j : ℕ) → block_of fs1 (record sv { indirect = b; dirty = true }) j ≡ block_of fs sv j)
        → Maps read_error write_error i fs1 (record sv { indirect = b; dirty = true }) o
        → Maps read_error write_error i fs sv o
    onwards {b} {fs} {fs1} {sv} {o} k x same (r, fs', sv', e, m) = (
      r,
      fs',
      sv',
      e,
      record {
        file = m.file;
        keeps = record {
          size = m.keeps.size ∙ (k 0).size;
          marks = λ j u. m.keeps.marks j ((k 0).marks j u);
          words = λ j u ne.
              m.keeps.words j ((k 0).marks j u) (λ q. ground (arith, x.free, ap (used fs) q))
              ∙ (k b).words j u (λ q. ground (arith, x.free, ap (used fs) q));
        };
        others = λ j ne. m.others j ne ∙ same j;
        answer = carry m.answer;
      },
    )
      where
        carry :
            {r : Reply ℕ}
            → Answer read_error write_error i fs1
                (record sv { indirect = b; dirty = true })
                fs'
                sv'
                r
            → Answer read_error write_error i fs sv fs' sv' r
        carry (existing nz e) =
            subst (λ w. Answer read_error write_error i fs sv fs' sv' (ok w)) (sym (same i))
              (existing (λ q. nz (same i ∙ q)) (e ∙ same i))
        carry (fresh c none e y) = fresh c (sym (same i) ∙ none) e (record {
          nonzero = y.nonzero;
          low = omega (arith, y.low, (k 0).size);
          free = elim (Bool-cases (used fs c)) [
            | inl u ↦ ground (arith, (k 0).marks c u, y.free)
            | inr u ↦ u
          ];
          taken = y.taken;
          zeros = y.zeros;
        })
        carry (too_big h) = too_big h
        carry (no_space all e) = no_space (λ c h. all c (omega (arith, h, (k 0).size))) (e ∙ same i)
        carry (failed c bad e) = failed c bad (e ∙ same i)

    pub bmap_indirect_lem :
        {fs : Fs} {sv : File}
        → IsFile fs sv
        → Maps read_error write_error i fs sv
            (bmap_indirect read_error write_error (i - sfs_ndirect) true fs sv)
    unfolding bmap_indirect sfs_rblock
    bmap_indirect_lem {fs} {sv} f = elim (ℕ_discrete sv.indirect 0) [
      | yes z ↦ elim (sfs_balloc_lem read_error write_error f.map) [
        | nothing e all ↦ grown f f.map (λ b. Keeps-refl b fs) (ground arith) (no_space all)
        | unclear b fs' e bad m k ↦ grown f m k (ground arith) (failed b (inr bad))
        | handed b fs1 e m k x ↦
            let same : (j : ℕ)
                → block_of fs1 (record sv { indirect = b; dirty = true }) j ≡ block_of fs sv j =
              block_of-zeros fs fs1 sv b z x.zeros in
            let file : IsFile fs1 (record sv { indirect = b; dirty = true }) = record {
              map = m;
              owns = Owns-attach_index (k 0).size (k 0).marks f.owns x same;
            } in
            onwards k x same (
              subst
                (λ o.
                  Maps read_error write_error i fs1 (record sv { indirect = b; dirty = true }) o)
                (ground arith) (bmap_entry_lem file (λ w. 0) x.nonzero (sym x.zeros)))
      ]
      | no nz ↦ elim (Bool-cases (read_error sv.indirect)) [
        | inl bad ↦
            grown f f.map (λ b. Keeps-refl b fs) (ground arith) (failed sv.indirect (inl bad))
        | inr good ↦
            subst (λ o. Maps read_error write_error i fs sv o) (ground arith)
              (bmap_entry_lem f (fs.disk sv.indirect) nz refl)
      ]
    ]

-- ===== src/Cmd/MultiNode/Gentx/Everywhere.antt =====
-- Every node of a testnet gets every genesis transaction.
use bluechip_chain_official.Prelude.{
  ℕ, ◌≡◌, refl, sym, ◌∙◌, ap, subst, ◌⊎◌, inl, inr, true, false, Bool-cases, Option, some, List, [],
  ◌∷◌, All, Bytes, bytes_eq, bytes_eq→eq,
}
use bluechip_chain_official.Cmd.MultiNode.Gentx.{
  FileSystem, is_sub_dir, synced, copied, created, copy_file, copy_gentx, copy_gentxs, copy_to_all,
}

-- A disk that takes every file: what is in a file can be opened, a call touches its own file, and a copy has
-- what the file that was opened held.
pub record FileSystemLaws {Fs Handle : Type 0} (f : FileSystem Fs Handle) : Type 0 where
  pub contents : Bytes → Fs → Option Bytes
  pub held : Handle → Bytes
  pub base-join : (dir name : Bytes) → f.base (f.join dir name) ≡ name
  pub open_lem :
      (src : Bytes) (fs : Fs) (c : Bytes)
      → contents src fs ≡ some c
      → (h : Handle) × (f.open_file src fs ≡ some h) × (held h ≡ c)
  pub create_lem :
      (dst : Bytes) (fs : Fs)
      → (fs' : Fs) × (f.create dst fs ≡ (some tt, fs'))
        × ((p : Bytes) → bytes_eq p dst ≡ false → contents p fs' ≡ contents p fs)
  pub copy_lem :
      (dst : Bytes) (h : Handle) (fs : Fs)
      → (n : ℕ) × (fs' : Fs) × (f.copy dst h fs ≡ (some n, fs'))
        × (contents dst fs' ≡ some (held h))
        × ((p : Bytes) → bytes_eq p dst ≡ false → contents p fs' ≡ contents p fs)
  pub sync_lem :
      (dst : Bytes) (fs : Fs)
      → (fs' : Fs) × (f.sync dst fs ≡ (some tt, fs'))
        × ((p : Bytes) → contents p fs' ≡ contents p fs)

module _ {Fs Handle : Type 0} (f : FileSystem Fs Handle) (laws : FileSystemLaws f)
    (transaction : Bytes → Bytes) where
  open laws use {contents}

  -- A copy has what the file has, and every other file is as it was.
  copy_file_lem :
      (src dir : Bytes) (fs : Fs) (c : Bytes)
      → contents src fs ≡ some c
      → (contents (f.join dir (f.base src)) (copy_file f src dir fs).1 ≡ some c)
        × ((p : Bytes)
            → bytes_eq p (f.join dir (f.base src)) ≡ false
            → contents p (copy_file f src dir fs).1 ≡ contents p fs)
  unfolding copy_file created copied synced
  copy_file_lem src dir fs c has =
      let dst = f.join dir (f.base src) in
      let (h, opens, holds) = laws.open_lem src fs c has in
      let (fs1, creates, same1) = laws.create_lem dst fs in
      let (n, fs2, copies, here, same2) = laws.copy_lem dst h fs1 in
      let (fs3, syncs, same3) = laws.sync_lem dst fs2 in
      let final : (copy_file f src dir fs).1 ≡ fs3 =
        rw (opens, copy_file) (rw creates (rw copies (rw syncs refl))) in
      (
        ap (contents dst) final ∙ same3 dst ∙ here ∙ ap some holds,
        λ p other. ap (contents p) final ∙ same3 p ∙ same2 p other ∙ same1 p other,
      )

  -- A file has the transaction of its name.
  abbrev pub HasTransaction : Fs → Bytes → Type 0
  HasTransaction fs p = contents p fs ≡ some (transaction (f.base p))

  -- A file lies elsewhere, or it is the one of its name in the folder.
  abbrev pub Located : Bytes → Bytes → Type 0
  Located dir file =
      (is_sub_dir f file dir ≡ some false)
      ⊎ ((is_sub_dir f file dir ≡ some true) × (file ≡ f.join dir (f.base file)))

  one_copied :
      (dir file : Bytes) (fs : Fs)
      → Located dir file
      → HasTransaction fs file
      → HasTransaction (copy_gentx f dir file fs) (f.join dir (f.base file))
        × ((p : Bytes) → HasTransaction fs p → HasTransaction (copy_gentx f dir file fs) p)
  unfolding copy_gentx
  one_copied dir file fs (inr (inside, place)) has =
      let final : copy_gentx f dir file fs ≡ fs = rw (inside, copy_gentx) refl in
      (
        ap (contents (f.join dir (f.base file))) final
            ∙ ap (λ p. contents p fs) (sym place)
            ∙ has
            ∙ ap (λ n. some (transaction n)) (sym (laws.base-join dir (f.base file))),
        λ p good. ap (contents p) final ∙ good,
      )
  one_copied dir file fs (inl outside) has =
      let dst = f.join dir (f.base file) in
      let final : copy_gentx f dir file fs ≡ (copy_file f file dir fs).1 =
        rw (outside, copy_gentx) refl in
      let (here, others) = copy_file_lem file dir fs (transaction (f.base file)) has in
      let good_here : HasTransaction (copy_gentx f dir file fs) dst =
        ap (contents dst) final
        ∙ here
        ∙ ap (λ n. some (transaction n)) (sym (laws.base-join dir (f.base file))) in
      (
        good_here,
        λ p good. elim (Bool-cases (bytes_eq p dst)) [
          | inl same ↦
              subst (HasTransaction (copy_gentx f dir file fs)) (sym (bytes_eq→eq p dst same))
                good_here
          | inr other ↦ ap (contents p) final ∙ others p other ∙ good
        ],
      )

  keep_list :
      (ps : List Bytes) (fs fs' : Fs)
      → ((p : Bytes) → HasTransaction fs p → HasTransaction fs' p)
      → All (HasTransaction fs) ps
      → All (HasTransaction fs') ps
  keep_list [] fs fs' keeps good = tt
  keep_list (p ∷ ps) fs fs' keeps (good, goods) = (keeps p good, keep_list ps fs fs' keeps goods)

  node_copied :
      (dir : Bytes) (files : List Bytes) (fs : Fs)
      → All (Located dir) files
      → All (HasTransaction fs) files
      → All (λ file. HasTransaction (copy_gentxs f dir files fs) (f.join dir (f.base file))) files
        × ((p : Bytes) → HasTransaction fs p → HasTransaction (copy_gentxs f dir files fs) p)
  unfolding copy_gentxs
  node_copied dir [] fs placed goods = (tt, λ p good. good)
  node_copied dir (file ∷ files) fs (place, placed) (good, goods) =
      let (here, keeps1) = one_copied dir file fs place good in
      let fs1 = copy_gentx f dir file fs in
      let (rest, keeps2) = node_copied dir files fs1 placed (keep_list files fs fs1 keeps1 goods) in
      ((keeps2 _ here, rest), λ p has. keeps2 p (keeps1 p has))

  nodes_copied :
      (dirs files : List Bytes) (fs : Fs)
      → All (λ dir. All (Located dir) files) dirs
      → All (HasTransaction fs) files
      → All
          (λ dir.
            All
              (λ file. HasTransaction (copy_to_all f dirs files fs) (f.join dir (f.base file)))
              files)
          dirs
        × ((p : Bytes) → HasTransaction fs p → HasTransaction (copy_to_all f dirs files fs) p)
  unfolding copy_to_all
  nodes_copied [] files fs placed goods = (tt, λ p good. good)
  nodes_copied (dir ∷ dirs) files fs (place, placed) goods =
      let (here, keeps1) = node_copied dir files fs place goods in
      let fs1 = copy_gentxs f dir files fs in
      let (rest, keeps2) =
        nodes_copied dirs files fs1 placed (keep_list files fs fs1 keeps1 goods) in
      (
        (kept_under dir files fs1 (copy_to_all f dirs files fs1) keeps2 here, rest),
        λ p has. keeps2 p (keeps1 p has),
      )
    where
      kept_under :
          (dir : Bytes) (files : List Bytes) (fs fs' : Fs)
          → ((p : Bytes) → HasTransaction fs p → HasTransaction fs' p)
          → All (λ file. HasTransaction fs (f.join dir (f.base file))) files
          → All (λ file. HasTransaction fs' (f.join dir (f.base file))) files
      kept_under dir [] fs fs' keeps good = tt
      kept_under dir (x ∷ xs) fs fs' keeps (good, goods) =
          (keeps _ good, kept_under dir xs fs fs' keeps goods)

  -- Where every file can be copied and has the transaction of its name, and isSubDir tells of each whether
  -- it is in a node's folder, every node has every transaction in its folder after the loops.
  pub copy_to_all-HasTransaction :
      (dirs files : List Bytes) (fs : Fs)
      → All (λ dir. All (Located dir) files) dirs
      → All (HasTransaction fs) files
      → All
          (λ dir.
            All
              (λ file. HasTransaction (copy_to_all f dirs files fs) (f.join dir (f.base file)))
              files)
          dirs
  copy_to_all-HasTransaction dirs files fs placed goods =
      (nodes_copied dirs files fs placed goods).0

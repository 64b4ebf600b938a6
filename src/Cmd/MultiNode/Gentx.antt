-- ===== src/Cmd/MultiNode/Gentx.antt =====
-- The copying of the genesis transactions in `initTestnetFiles`, with `isSubDir` and `copyFile` of
-- cmd/bluechipchaind/cmd/testnet_multi_node.go. The package filepath and the file system are parameters.
pub mod Everywhere
use bluechip_chain_official.Prelude.{
  ℕ, zero, suc, ◌+◌, Bool, true, false, not, ◌&&◌, ◌==◌, Option, none, some, List, [], ◌∷◌, Bytes,
  bytes, ◌>>=◌,
}

-- An error is none. What a call leaves behind of the file system stays when it fails.
pub record FileSystem (Fs Handle : Type 0) : Type 0 where
  pub abs : Bytes → Option Bytes
  pub rel : Bytes → Bytes → Option Bytes
  pub is_abs : Bytes → Bool
  pub base : Bytes → Bytes
  pub join : Bytes → Bytes → Bytes
  pub open_file : Bytes → Fs → Option Handle
  pub create : Bytes → Fs → Option (Unit {0}) × Fs
  pub copy : Bytes → Handle → Fs → Option ℕ × Fs
  pub sync : Bytes → Fs → Option (Unit {0}) × Fs

-- `strings.HasPrefix`
unfoldable pub has_prefix : Bytes → Bytes → Bool
has_prefix s [] = true
has_prefix [] (c ∷ cs) = false
has_prefix (b ∷ s) (c ∷ cs) = b == c && has_prefix s cs

module _ {Fs Handle : Type 0} (f : FileSystem Fs Handle) where
  unfoldable pub is_sub_dir : Bytes → Bytes → Option Bool
  unfolding has_prefix
  is_sub_dir src dst_dir = elim (f.abs src) [
    | none ↦ none
    | some abs_src ↦ elim (f.abs dst_dir) [
      | none ↦ none
      | some abs_dst_dir ↦ elim (f.rel abs_dst_dir abs_src) [
        | none ↦ none
        | some relative_path ↦
            some (not (has_prefix relative_path (bytes "..")) && not (f.is_abs relative_path))
      ]
    ]
  ]

  unfoldable pub synced : ℕ → Option (Unit {0}) × Fs → Option ℕ × Fs
  synced bytes_copied (none, fs) = (none, fs)
  synced bytes_copied (some u, fs) = (some bytes_copied, fs)

  unfoldable pub copied : Bytes → Option ℕ × Fs → Option ℕ × Fs
  unfolding synced
  copied dst (none, fs) = (none, fs)
  copied dst (some bytes_copied, fs) = synced bytes_copied (f.sync dst fs)

  unfoldable pub created : Bytes → Handle → Option (Unit {0}) × Fs → Option ℕ × Fs
  unfolding copied
  created dst source_file (none, fs) = (none, fs)
  created dst source_file (some u, fs) = copied dst (f.copy dst source_file fs)

  unfoldable pub copy_file : Bytes → Bytes → Fs → Option ℕ × Fs
  unfolding created
  copy_file src dst_dir fs =
      let dst = f.join dst_dir (f.base src) in
      elim (f.open_file src fs) [
        | none ↦ (none, fs)
        | some source_file ↦ created dst source_file (f.create dst fs)
      ]

  -- A file for one node: it is passed over where it lies in the node's folder, or where that cannot be told,
  -- and the error of the copying is not looked at.
  unfoldable pub copy_gentx : Bytes → Bytes → Fs → Fs
  unfolding is_sub_dir copy_file
  copy_gentx dir file fs = elim (is_sub_dir file dir) [
    | none ↦ fs
    | some inside ↦ elim inside [ true ↦ fs | false ↦ (copy_file file dir fs).1 ]
  ]

  unfoldable pub copy_gentxs : Bytes → List Bytes → Fs → Fs
  unfolding copy_gentx
  copy_gentxs dir [] fs = fs
  copy_gentxs dir (file ∷ files) fs = copy_gentxs dir files (copy_gentx dir file fs)

  -- The nodes, by their folders for genesis transactions.
  unfoldable pub copy_to_all : List Bytes → List Bytes → Fs → Fs
  unfolding copy_gentxs
  copy_to_all [] files fs = fs
  copy_to_all (dir ∷ dirs) files fs = copy_to_all dirs files (copy_gentxs dir files fs)

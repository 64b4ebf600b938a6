-- ===== src/Tests/OfGentx.antt =====
-- The genesis transactions of two nodes. A path is the length of the folder, the folder and the name, and the
-- disk is what each path has.
use bluechip_chain_official.Prelude.{
  zero, suc, ◌≡◌, refl, inl, inr, Option, none, some, List, [], ◌∷◌, length, All, Bytes, bytes,
  bytes_eq, bytes_eq_refl, if◌then◌else◌, false,
}
use bluechip_chain_official.Cmd.MultiNode.Gentx.{FileSystem, has_prefix, is_sub_dir, copy_to_all}
use bluechip_chain_official.Cmd.MultiNode.Gentx.Everywhere.{
  FileSystemLaws, copy_to_all-HasTransaction,
}

abbrev Disk : Type 0
Disk = Bytes → Option Bytes

-- Behind a zero is the name.
abbrev name_of : Bytes → Bytes
name_of [] = []
name_of (zero ∷ path) = path
name_of (suc n ∷ path) = name_of path

abbrev under : Bytes → Bytes → Bytes
under [] name = zero ∷ name
under (n ∷ dir) name = suc n ∷ under dir name

abbrev put : Bytes → Bytes → Disk → Disk
put path text d p = if bytes_eq p path then some text else d p

abbrev disk : FileSystem Disk Bytes
disk = record {
  abs = λ p. some p;
  rel = λ dir p. some (if has_prefix p (under dir []) then [] else bytes "..");
  is_abs = λ p. false;
  base = name_of;
  join = under;
  open_file = λ src d. d src;
  create = λ dst d. (some tt, put dst [] d);
  copy = λ dst text d. (some (length text), put dst text d);
  sync = λ dst d. (some tt, d);
}

name-under : (dir name : Bytes) → name_of (under dir name) ≡ name
name-under [] name = refl
name-under (n ∷ dir) name = name-under dir name

unfoldable disk_laws : FileSystemLaws disk
disk_laws = record {
  contents = λ p d. d p;
  held = λ text. text;
  base-join = name-under;
  open_lem = λ src d c has. (c, has, refl);
  create_lem = λ dst d. (put dst [] d, refl, λ p other. rw other refl);
  copy_lem = λ dst text d.
      (length text, put dst text d, refl, rw (bytes_eq_refl dst) refl, λ p other. rw other refl);
  sync_lem = λ dst d. (d, refl, λ p. refl);
}

abbrev two_dirs : List Bytes
two_dirs = (1 ∷ []) ∷ (2 ∷ []) ∷ []

abbrev two_gentxs : List Bytes
two_gentxs = under (1 ∷ []) (bytes "a") ∷ under (2 ∷ []) (bytes "b") ∷ []

abbrev made : Disk
made =
    put (under (1 ∷ []) (bytes "a")) (bytes "a")
      (put (under (2 ∷ []) (bytes "b")) (bytes "b") λ p. none)

copy_to_all-HasTransaction_example :
    All
      (λ dir.
        All
          (λ file.
            copy_to_all disk two_dirs two_gentxs made (under dir (name_of file))
            ≡ some (name_of file))
          two_gentxs)
      two_dirs
unfolding disk_laws is_sub_dir has_prefix
copy_to_all-HasTransaction_example =
    copy_to_all-HasTransaction disk disk_laws (λ n. n) two_dirs two_gentxs made
      ((inr (refl, refl), (inl refl, tt)), ((inl refl, (inr (refl, refl), tt)), tt))
      (refl, (refl, tt))

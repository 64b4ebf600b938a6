-- ===== src/Tests/OfGenesis.antt =====
-- The genesis files of a testnet at concrete nodes. The file system is what a node's genesis file holds,
-- and each node makes a state of its own.
use bluechip_chain_official.Prelude.{
  ℕ, ◌+◌, ◌<◌, ◌≡◌, ◌≢◌, refl, sym, ap, ◌∙◌, arith, Option, none, some, [], ◌==◌, if◌then◌else◌,
  Outcome, ok,
}
use bluechip_chain_official.Cmd.MultiNode.Genesis.{
  Files, collect_gen_files, collect_from, collect_node,
}
use bluechip_chain_official.Cmd.MultiNode.Genesis.Canonical.{FilesLaws, collect_gen_files-ok}

abbrev Disk : Type 0
Disk = ℕ → Option (ℕ × ℕ)

abbrev put : ℕ → ℕ × ℕ → Disk → Disk
put i x d j = if j == i then some x else d j

abbrev disk_files : Files Disk ℕ ℕ ℕ
disk_files = record {
  app_genesis_from_file = λ i d. ok i;
  gen_app_state_from_config = λ i g d. ok (g + 7, d);
  write_config_file = λ i c d. ok d;
  export_genesis_file_with_time = λ i s t d. ok (put i (s, t) d);
}

put_here : (i : ℕ) (x : ℕ × ℕ) (d : Disk) → put i x d i ≡ some x
put_here i x d = ground arith

put_other : (i j : ℕ) (x : ℕ × ℕ) (d : Disk) → j ≢ i → put i x d j ≡ d j
put_other i j x d ne = ground arith

same_disk :
    {A : Type 0} (a b : A) (d d' : Disk) (j : ℕ)
    → ◌≡◌ {A = Outcome (A × Disk)} (ok (a, d)) (ok (b, d'))
    → d j ≡ d' j
same_disk {A = A} a b d d' j h =
    let e : ◌≡◌ {A = A × Disk} (a, d) (b, d') = cc h in ap (λ y. y.1 j) e

disk_laws : FilesLaws disk_files
disk_laws = record {
  genesis_file = λ i d. d i;
  gen_app_state_lem = λ i g d s d' h j ne. sym (same_disk (g + 7) s d d' j h);
  write_config_lem = λ i c d d' h j. let e : d ≡ d' = cc h in ap (λ (y : Disk). y j) (sym e);
  export_genesis_lem = λ i s t d d' h. (
    let e : put i (s, t) d ≡ d' = cc h in ap (λ (y : Disk). y i) (sym e) ∙ put_here i (s, t) d,
    λ j ne.
        let e : put i (s, t) d ≡ d' = cc h in
        ap (λ (y : Disk). y j) (sym e) ∙ put_other i j (s, t) d ne,
  );
}

abbrev written : Disk
written = put 2 (7, 5) (put 1 (7, 5) (put 0 (7, 5) (λ i. none)))

three_nodes : collect_gen_files disk_files [] [] 5 3 (λ i. none) ≡ ok written
unfolding collect_gen_files collect_from collect_node
three_nodes = refl

collect_gen_files-ok_example : (state : ℕ) × ((j : ℕ) → j < 3 → written j ≡ some (state, 5))
unfolding disk_laws
collect_gen_files-ok_example =
    collect_gen_files-ok disk_files disk_laws [] [] 5 3 (λ i. none) written (omega arith)
      three_nodes

-- ===== src/Cmd/MultiNode/Genesis/Canonical.antt =====
-- All nodes of a testnet get one genesis.
use bluechip_chain_official.Prelude.{
  ℕ, zero, suc, ◌+◌, ◌≤◌, ◌<◌, ◌≡◌, ◌≢◌, sym, ◌∙◌, ap, subst, arith, Option, none, some, List,
  Bytes, ok, >>=-eq-ok,
}
use bluechip_chain_official.Cmd.MultiNode.{Port}
use bluechip_chain_official.Cmd.MultiNode.Genesis.{
  NodeConfig, node_config, Files, canonical, collect_node, collect_from, collect_gen_files,
}
use native.Mathlib.Decide.{dec_lt}

-- What the loop relies on of genutil and of the writing of a configuration: of the genesis files they
-- touch at most the node's own, and the one that is exported is there.
pub record FilesLaws {Fs State AppGenesis Time : Type 0} (f : Files Fs State AppGenesis Time)
    : Type 0 where
  pub genesis_file : ℕ → Fs → Option (State × Time)
  pub gen_app_state_lem :
      (i : ℕ) (g : AppGenesis) (fs : Fs) (state : State) (fs' : Fs)
      → f.gen_app_state_from_config i g fs ≡ ok (state, fs')
      → (j : ℕ) → j ≢ i
      → genesis_file j fs' ≡ genesis_file j fs
  pub write_config_lem :
      (i : ℕ) (c : NodeConfig) (fs fs' : Fs)
      → f.write_config_file i c fs ≡ ok fs'
      → (j : ℕ) → genesis_file j fs' ≡ genesis_file j fs
  pub export_genesis_lem :
      (i : ℕ) (state : State) (t : Time) (fs fs' : Fs)
      → f.export_genesis_file_with_time i state t fs ≡ ok fs'
      → (genesis_file i fs' ≡ some (state, t))
        × ((j : ℕ) → j ≢ i → genesis_file j fs' ≡ genesis_file j fs)

module _ {Fs State AppGenesis Time : Type 0} (f : Files Fs State AppGenesis Time)
    (laws : FilesLaws f) (peers : Bytes) (ports : List (ℕ × Port)) (gen_time : Time) where
  open laws use {genesis_file}

  collect_node-ok :
      (i : ℕ) (app_state : Option State) (fs : Fs) (state : State) (fs' : Fs)
      → collect_node f peers ports gen_time i app_state fs ≡ ok (state, fs')
      → (node_state : State) × (state ≡ canonical app_state node_state)
        × (genesis_file i fs' ≡ some (state, gen_time))
        × ((j : ℕ) → j ≢ i → genesis_file j fs' ≡ genesis_file j fs)
  unfolding collect_node
  collect_node-ok i app_state fs state fs' h =
      let (g, read, h1) = >>=-eq-ok (f.app_genesis_from_file i fs) _ h in
      let ((node_state, fs1), generated, h2) =
        >>=-eq-ok (f.gen_app_state_from_config i g fs) _ h1 in
      let (fs2, configured, h3) =
        >>=-eq-ok (f.write_config_file i (node_config peers ports i) fs1) _ h2 in
      let (fs3, exported, h4) =
        >>=-eq-ok (f.export_genesis_file_with_time i (canonical app_state node_state) gen_time fs2)
          _ h3 in
      let same : ◌≡◌ {A = State × Fs} (canonical app_state node_state, fs3) (state, fs') = cc h4 in
      let (here, others) = laws.export_genesis_lem i _ gen_time fs2 fs3 exported in
      let at_state = ap (λ r. r.0) same in
      let at_fs = ap (λ r. r.1) same in
      (
        node_state,
        sym at_state,
        ap (genesis_file i) (sym at_fs) ∙ here ∙ ap (λ s. some (s, gen_time)) at_state,
        λ j ne.
            ap (genesis_file j) (sym at_fs)
            ∙ others j ne
            ∙ laws.write_config_lem i _ fs1 fs2 configured j
            ∙ laws.gen_app_state_lem i g fs node_state fs1 generated j ne,
      )

  -- Once there is a state, all later nodes get it, and the earlier ones keep theirs.
  collect_from-ok :
      (count i : ℕ) (first : State) (fs fs' : Fs)
      → collect_from f peers ports gen_time count i (some first) fs ≡ ok fs'
      → ((j : ℕ) → i ≤ j → j < i + count → genesis_file j fs' ≡ some (first, gen_time))
        × ((j : ℕ) → j < i → genesis_file j fs' ≡ genesis_file j fs)
  unfolding collect_from
  collect_from-ok zero i first fs fs' h =
      let same : fs ≡ fs' = cc h in
      (λ j lo hi. absurd (omega arith), λ j b. ap (genesis_file j) (sym same))
  collect_from-ok (suc count) i first fs fs' h =
      let ((state, fs1), step, later) = >>=-eq-ok _ _ h in
      let (node_state, chosen, here, others) = collect_node-ok i (some first) fs state fs1 step in
      let rest =
        subst (λ s. collect_from f peers ports gen_time count (i + 1) (some s) fs1 ≡ ok fs') chosen
          later in
      let (after, before) = collect_from-ok count (i + 1) first fs1 fs' rest in
      (
        λ j lo hi. elim (dec_lt i j) [
          | yes later_node ↦ after j (omega arith) (omega arith)
          | no this_node ↦
              let e : j ≡ i = omega arith in
              before j (omega arith)
              ∙ ap (λ n. genesis_file n fs1) e
              ∙ here
              ∙ ap (λ s. some (s, gen_time)) chosen
        ],
        λ j b. before j (omega arith) ∙ others j (omega arith),
      )

  -- When the loop ends well over one validator or more, there is one state, and every node's genesis
  -- file has it, with the time that was taken before the loop.
  pub collect_gen_files-ok :
      (validators : ℕ) (fs fs' : Fs)
      → 0 < validators
      → collect_gen_files f peers ports gen_time validators fs ≡ ok fs'
      → (state : State) × ((j : ℕ) → j < validators → genesis_file j fs' ≡ some (state, gen_time))
  unfolding collect_gen_files collect_from
  collect_gen_files-ok zero fs fs' b h = absurd (omega arith)
  collect_gen_files-ok (suc count) fs fs' b h =
      let ((state, fs1), step, later) = >>=-eq-ok _ _ h in
      let (node_state, chosen, here, others) = collect_node-ok 0 none fs state fs1 step in
      let (after, before) = collect_from-ok count 1 state fs1 fs' later in
      (
        state,
        λ j hi. elim (dec_lt 0 j) [
          | yes later_node ↦ after j (omega arith) (omega arith)
          | no this_node ↦
              let e : j ≡ 0 = omega arith in
              before j (omega arith) ∙ ap (λ n. genesis_file n fs1) e ∙ here
        ],
      )

-- ===== src/Cmd/MultiNode/Genesis.antt =====
-- `collectGenFiles` of cmd/bluechipchaind/cmd/testnet_multi_node.go, and what it sets of a node's
-- config.toml. The files of a node are named by its number, which its directory ends with; the file
-- system and genutil are parameters; `WriteConfigFile` ends the process where it cannot write, which is
-- an outcome other than `ok`.
pub mod Canonical
use bluechip_chain_official.Prelude.{
  ℕ, zero, suc, ◌+◌, Bool, true, false, Option, none, some, List, [], ◌∷◌, Bytes, Outcome, ok, err,
  panic, stuck, ◌>>=◌,
}
use bluechip_chain_official.MathInt.{ℤ}
use bluechip_chain_official.Cmd.MultiNode.{Port, toml_port, p2p, rpc, proxy, prometheus}

-- What is set of a node's config.toml. The RPC port is what the map `args.ports` has, and nothing where
-- it has none.
pub record NodeConfig : Type 0 where
  pub moniker : ℕ
  pub persistent_peers : Bytes
  pub allow_duplicate_ip : Bool
  pub p2p_port : Option Port
  pub rpc_port : Option Port
  pub proxy_port : Option Port
  pub prometheus_port : Option Port
  pub prometheus_on : Bool

unfoldable pub node_config : Bytes → List (ℕ × Port) → ℕ → NodeConfig
node_config peers ports i = record {
  moniker = i;
  persistent_peers = peers;
  allow_duplicate_ip = true;
  p2p_port = toml_port ports p2p i;
  rpc_port = toml_port ports rpc i;
  proxy_port = toml_port ports proxy i;
  prometheus_port = toml_port ports prometheus i;
  prometheus_on = true;
}

pub record Files (Fs State AppGenesis Time : Type 0) : Type 0 where
  pub app_genesis_from_file : ℕ → Fs → Outcome AppGenesis
  pub gen_app_state_from_config : ℕ → AppGenesis → Fs → Outcome (State × Fs)
  pub write_config_file : ℕ → NodeConfig → Fs → Outcome Fs
  pub export_genesis_file_with_time : ℕ → State → Time → Fs → Outcome Fs

-- The state that is exported: `if appState == nil { appState = nodeAppState }`
abbrev pub canonical : {State : Type 0} → Option State → State → State
canonical none state = state
canonical (some first) state = first

module _ {Fs State AppGenesis Time : Type 0} (f : Files Fs State AppGenesis Time) (peers : Bytes)
    (ports : List (ℕ × Port)) (gen_time : Time) where
  -- One round of the loop of `collectGenFiles`.
  unfoldable pub collect_node : ℕ → Option State → Fs → Outcome (State × Fs)
  unfolding node_config
  collect_node i app_state fs = do
    app_genesis ← f.app_genesis_from_file i fs
    (node_app_state, fs1) ← f.gen_app_state_from_config i app_genesis fs
    fs2 ← f.write_config_file i (node_config peers ports i) fs1
    fs3 ← f.export_genesis_file_with_time i (canonical app_state node_app_state) gen_time fs2
    ok (canonical app_state node_app_state, fs3)

  -- The nodes from `i` on, `count` of them.
  unfoldable pub collect_from : ℕ → ℕ → Option State → Fs → Outcome Fs
  unfolding collect_node
  collect_from zero i app_state fs = ok fs
  collect_from (suc count) i app_state fs = do
    (state, fs') ← collect_node i app_state fs
    collect_from count (i + 1) (some state) fs'

  unfoldable pub collect_gen_files : ℕ → Fs → Outcome Fs
  unfolding collect_from
  collect_gen_files validators fs = collect_from validators 0 none fs

-- ===== src/App/Export.antt =====
-- `ExportAppStateAndValidators` of app/export.go. The stores, the module manager and the codec are
-- parameters.
use bluechip_chain_official.Prelude.{
  ℕ, ◌+◌, ◌≡◌, sym, ◌∙◌, ap, Bool, true, false, List, Bytes, Outcome, ok, ◌>>=◌, >>=-eq-ok, must,
  must-ok, if◌then◌else◌,
}
use bluechip_chain_official.App.ZeroHeight.{Keepers, prep_for_zero_height_genesis}

pub record ExportedApp (Vals Consensus : Type 0) : Type 0 where
  pub app_state : Bytes
  pub validators : Vals
  pub height : ℕ
  pub consensus_params : Consensus

-- What the application calls beside its keepers: a context at a height, the export of the genesis of some
-- modules, the JSON of that, the validators, and the consensus parameters.
pub record Exporter (S Genesis Vals Consensus : Type 0) : Type 0 where
  pub new_context : ℕ → S
  pub export_genesis_for_modules : List Bytes → S → Outcome Genesis
  pub marshal_indent : Genesis → Outcome Bytes
  pub write_validators : S → Outcome Vals
  pub get_consensus_params : S → Consensus

module _ {S Coins Genesis Vals Consensus : Type 0} (k : Keepers S Coins)
    (x : Exporter S Genesis Vals Consensus) where
  -- A process that `log.Fatal` ends comes back no more than one that panics. Where the validators cannot be
  -- written the code returns the value beside the error.
  unfoldable pub export_app_state_and_validators :
      ℕ → Bool → List Bytes → List Bytes → Outcome (ExportedApp Vals Consensus)
  export_app_state_and_validators last for_zero_height allowed modules = do
    let ctx = x.new_context last
    let prepared = must (prep_for_zero_height_genesis k allowed ctx)
    ctx' ← if for_zero_height then prepared else ok ctx
    genesis ← x.export_genesis_for_modules modules ctx'
    app_state ← x.marshal_indent genesis
    vals ← x.write_validators ctx'
    ok (record {
      app_state = app_state;
      validators = vals;
      height = if for_zero_height then 0 else last + 1;
      consensus_params = x.get_consensus_params ctx';
    })

  -- The state that is exported.
  abbrev pub ExportsState : ℕ → Bool → List Bytes → S → Type 0
  ExportsState last true allowed s =
      prep_for_zero_height_genesis k allowed (x.new_context last) ≡ ok s
  ExportsState last false allowed s = x.new_context last ≡ s

  chosen_state :
      (b : Bool) (last : ℕ) (allowed : List Bytes) (s : S)
      → (if b
          then must (prep_for_zero_height_genesis k allowed (x.new_context last))
          else ok (x.new_context last))
        ≡ ok s
      → ExportsState last b allowed s
  chosen_state true last allowed s h = must-ok _ h
  chosen_state false last allowed s h = cc

  -- What is exported is the genesis of the modules and the validators of the state that was prepared, at
  -- height 0, or of the state as it is, at the height after the last.
  pub export-ok :
      (last : ℕ) (for_zero_height : Bool) (allowed modules : List Bytes)
      (e : ExportedApp Vals Consensus)
      → export_app_state_and_validators last for_zero_height allowed modules ≡ ok e
      → (s : S) × (genesis : Genesis) × ExportsState last for_zero_height allowed s
        × (x.export_genesis_for_modules modules s ≡ ok genesis)
        × (x.marshal_indent genesis ≡ ok e.app_state)
        × (x.write_validators s ≡ ok e.validators)
        × (e.height ≡ (if for_zero_height then 0 else last + 1))
        × (e.consensus_params ≡ x.get_consensus_params s)
  unfolding export_app_state_and_validators
  export-ok last b allowed modules e h =
      let (s, state, h1) = >>=-eq-ok _ _ h in
      let (genesis, exported, h2) = >>=-eq-ok _ _ h1 in
      let (out, json, h3) = >>=-eq-ok _ _ h2 in
      let (vals, written, h4) = >>=-eq-ok _ _ h3 in
      let made : ExportedApp Vals Consensus = record {
        app_state = out;
        validators = vals;
        height = if b then 0 else last + 1;
        consensus_params = x.get_consensus_params s;
      } in
      let same : made ≡ e = cc h4 in
      (
        s,
        genesis,
        chosen_state b last allowed s state,
        exported,
        json ∙ ap (λ y. ok y.app_state) same,
        written ∙ ap (λ y. ok y.validators) same,
        ap (λ y. y.height) (sym same),
        ap (λ y. y.consensus_params) (sym same),
      )

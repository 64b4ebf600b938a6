-- ===== src/Cmd/Export.antt =====
-- `appExport` of cmd/bluechipchaind/cmd/commands.go. The application and viper are parameters.
use bluechip_chain_official.Prelude.{
  ◌↔◌, ◌≡◌, ◌≢◌, refl, Option, none, some, Bool, true, false, not, ◌==◌, Bytes, bytes, bytes_eq, [],
  ◌∷◌, Outcome, ok, err, text, ◌>>=◌, ◌>>◌, fail_if, if◌then◌else◌, >>=-eq-ok, ◌⊎◌, inl, inr,
}
use bluechip_chain_official.MathInt.{ℤ, pos, negsuc}

-- `height == -1`
abbrev pub is_latest : ℤ → Bool
is_latest (pos h) = false
is_latest (negsuc h) = h == 0

-- `home` is none where the flag is no string; `set_check_period` is none where the options are not
-- viper's, and otherwise the options with FlagInvCheckPeriod at 1.
pub record ExportOptions (Opts : Type 0) : Type 0 where
  pub home : Option Bytes
  pub set_check_period : Option Opts

abbrev pub home_set : Option Bytes → Outcome (Unit {0})
home_set none = err (text (bytes "application home not set"))
home_set (some path) = fail_if (bytes_eq path []) (text (bytes "application home not set"))

abbrev pub viper_opts : {Opts : Type 0} → Option Opts → Outcome Opts
viper_opts none = err (text (bytes "appOpts is not viper.Viper"))
viper_opts (some opts) = ok opts

chosen :
    {A : Type 0} (b : Bool) (x y : Outcome A) (a : A)
    → (if not b then x else y) ≡ ok a
    → ((b ≡ true) × (y ≡ ok a)) ⊎ ((b ≡ false) × (x ≡ ok a))
chosen true x y a h = inl (refl, h)
chosen false x y a h = inr (refl, h)

-- `app_new` is given whether it loads the latest height.
module _ {Opts App Exported : Type 0} (app_new : Bool → Opts → Outcome App)
    (load_height : ℤ → App → Outcome App) (export : App → Outcome Exported) where
  unfoldable pub app_export : ℤ → ExportOptions Opts → Outcome Exported
  app_export height opts = do
    home_set opts.home
    viper ← viper_opts opts.set_check_period
    let at_height = (do a ← app_new false viper; load_height height a)
    let latest = app_new true viper
    bapp ← if not (is_latest height) then at_height else latest
    export bapp

  home_set-ok :
      (o : Option Bytes) → home_set o ≡ ok tt → (path : Bytes) × (o ≡ some path) × (path ≢ [])
  home_set-ok none h = cc
  home_set-ok (some []) h = cc
  home_set-ok (some (c ∷ s)) h = (c ∷ s, refl, λ e. cc)

  viper_opts-ok : (o : Option Opts) (v : Opts) → viper_opts o ≡ ok v → o ≡ some v
  viper_opts-ok none v h = cc
  viper_opts-ok (some w) v h = cc

  home_set-some : (o : Option Bytes) (path : Bytes) → o ≡ some path → path ≢ [] → home_set o ≡ ok tt
  home_set-some none path e h = cc
  home_set-some (some []) path e h = absurd (h (given e))
    where
      given : some [] ≡ some path → path ≡ []
      given e = cc
  home_set-some (some (c ∷ s)) path e h = refl

  -- A home that is not empty, viper's options, and an application whose export is `e`: made at the
  -- latest height where the height is -1, and otherwise loaded at the height that was asked for.
  abbrev pub Exports : ℤ → ExportOptions Opts → Exported → Type 0
  Exports height opts e =
      ((path : Bytes) × (opts.home ≡ some path) × (path ≢ []))
      × ((viper : Opts) × (opts.set_check_period ≡ some viper)
          × ((a : App) × (((is_latest height ≡ true) × (app_new true viper ≡ ok a))
                ⊎ ((is_latest height ≡ false)
                    × ((b : App) × (app_new false viper ≡ ok b) × (load_height height b ≡ ok a))))
              × (export a ≡ ok e)))

  app_export-ok :
      (height : ℤ) (opts : ExportOptions Opts) (e : Exported)
      → app_export height opts ≡ ok e
      → Exports height opts e
  unfolding app_export
  app_export-ok height opts e h =
      let (u, home, h1) = >>=-eq-ok (home_set opts.home) _ h in
      let (viper, v, h2) = >>=-eq-ok (viper_opts opts.set_check_period) _ h1 in
      let (a, made, done) =
        >>=-eq-ok
          (if not (is_latest height)
            then (app_new false viper >>= λ b. load_height height b)
            else app_new true viper)
          _ h2 in
      (
        home_set-ok opts.home home,
        (
          viper,
          viper_opts-ok opts.set_check_period viper v,
          (
            a,
            elim (chosen (is_latest height) _ _ a made) [
              | inl (latest, new) ↦ inl (latest, new)
              | inr (older, loaded) ↦ inr (older, >>=-eq-ok (app_new false viper) _ loaded)
            ],
            done,
          ),
        ),
      )

  app_export_runs :
      (height : ℤ) (opts : ExportOptions Opts) (e : Exported)
      → Exports height opts e
      → app_export height opts ≡ ok e
  unfolding app_export
  app_export_runs height opts e ((path, home, ne), (viper, v, (a, way, done))) =
      rw (home_set-some opts.home path home ne) (
        rw v (elim way [
          | inl (latest, new) ↦ rw (latest, new) done
          | inr (older, (b, made, loaded)) ↦ rw (older, made, loaded) done
        ]))

  -- An export succeeds just where there is a home that is not empty and the options are viper's, and
  -- where the application, made at the latest height for a height of -1 and otherwise loaded at the
  -- height that was asked for, exports.
  pub app_export_iff :
      (height : ℤ) (opts : ExportOptions Opts) (e : Exported)
      → (app_export height opts ≡ ok e) ↔ Exports height opts e
  app_export_iff height opts e = (app_export-ok height opts e, app_export_runs height opts e)

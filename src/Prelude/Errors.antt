-- ===== src/Prelude/Errors.antt =====
-- What a fallible call returns.
use mathlib.Core.Option.{Option}
use mathlib.Core.Path.{◌≡◌, refl}
use mathlib.Core.Logic.{◌⊎◌, inl, inr}
use Prim.Native.String.{String}
use poc_controller.Prelude.Text.{◌^^◌}

-- The reasons of the apiserver's status errors that the code tells apart.
pub data ApiReason : Type 0 where
  not_found forbidden other_reason : ApiReason

-- The sentinel errors of internal/source, internal/render and internal/reconcile.
pub data Sentinel : Type 0 where
  source_not_found source_not_ready unsupported_source_kind missing_cue_module : Sentinel
  unsupported_kind release_file_missing : Sentinel

-- An error value: its text, the first status error of its chain, and the sentinel that it wraps.
pub record Error : Type 0 where
  pub msg : String
  pub status : Option ApiReason
  pub sentinel : Option Sentinel

pub data Result {ℓ} (A : Type ℓ) : Type ℓ where
  ok : A → Result A
  err : Error → Result A

-- fmt.Errorf with %w: the text in front, the chain as it was.
abbrev pub wrap : String → Error → Error
wrap prefix e = record e { msg = prefix ^^ e.msg }

pub Result-cases {ℓ} :
    {A : Type ℓ} (r : Result A) → ((a : A) × (r ≡ ok a)) ⊎ ((e : Error) × (r ≡ err e))
Result-cases (ok a) = inl (a, refl)
Result-cases (err e) = inr (e, refl)

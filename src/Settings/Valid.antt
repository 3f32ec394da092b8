-- ===== src/Settings/Valid.antt =====
-- What a setting must be, whichever runtime reads it.
use ne_kiro_samples.Base.{String, ℕ, true, ◌≡◌, ◌≢◌, ◌≤◌, some}
use ne_kiro_samples.Identifier.{is_digit, all_characters, is_identifier}
use ne_kiro_samples.Settings.{Lookup, Environment}

pub record IsText (env : Environment) (value : String) : Type 0 where
  pub filled : value ≢ ""
  pub trimmed : env.trim_space value ≡ value

pub record IsName (env : Environment) (value : String) : Type 0 where
  pub text : IsText env value
  pub safe : is_identifier value ≡ true

-- A setting of digits alone, for a number in the platform's range.
pub record IsLimit (env : Environment) (lookup : Lookup) (name : String) (n : ℕ) : Type 0 where
  pub digits : String
  pub there : lookup name ≡ some digits
  pub text : IsText env digits
  pub only_digits : all_characters is_digit digits ≡ true
  pub parsed : env.parse_int digits ≡ some n
  pub from_minimum : env.limit_minimum ≤ n
  pub to_maximum : n ≤ env.limit_maximum

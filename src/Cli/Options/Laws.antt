-- ===== src/Cli/Options/Laws.antt =====
-- What the options are when the checks let them through.
use ctscan.Base.{
  ℕ, ◌*◌, ◌≤◌, true, [], ok, nat_eq, text_eq, texts_eq, Bytes, ◌≡◌, ◌≢◌, ap, arith, All,
}
use ctscan.Base.Decimal.{decimal, atoi-decimal}
use ctscan.Base.Int.{pos, wrap64, ◌≤ℤ◌}
use ctscan.Cli.Options.{seconds, Environment, Flags, Checked, duration_from, parse_duration}
use ctscan.Input.Names.{Idna}
use ctscan.Input.Names.Valid.{IsHostName}
use ctscan.Input.Ports.Laws.{ArePorts}
use ctscan.Types.{second}

-- The most seconds that a duration of 64 bits holds
abbrev pub max_seconds : ℕ
max_seconds = 9_223_372_036

seconds-exact : (n : ℕ) → n ≤ max_seconds → seconds (pos n) ≡ pos (n * second)
unfolding seconds wrap64
seconds-exact n h = ground arith

module _ (idna : Idna) (system : Environment) where
  -- A bare number of seconds is read as it is written, if a duration of 64 bits holds it.
  pub parse_duration-decimal :
      (n : ℕ) → n ≤ max_seconds → parse_duration idna system (decimal n) ≡ ok (pos (n * second))
  unfolding parse_duration duration_from
  parse_duration-decimal n h = rw (atoi-decimal n (omega (arith, h))) (ap ok (seconds-exact n h))

  -- A valid host name that is no public suffix of the list's first part.
  abbrev pub IsScope : Bytes → Type 0
  IsScope scope = IsHostName scope × (system.public_suffix scope ≢ (scope, true))

  -- The numbers that the flags may have.
  abbrev pub AreLimits : Flags → Type 0
  AreLimits flags =
      (pos 1 ≤ℤ flags.pivot_depth)
      × (pos 1 ≤ℤ flags.max_discovery)
      × (pos 1 ≤ℤ flags.concurrency)
      × (flags.concurrency ≤ℤ pos 100_000)

  abbrev pub IsChecked : Flags → Checked → Type 0
  IsChecked flags c =
      (flags.pivot ≡ true → All IsScope c.scopes × (c.scopes ≢ []))
      × AreLimits flags
      × ArePorts c.ports
      × (c.ports ≢ [])

-- ===== src/Demo.antt =====
-- frontend/src/lib/demo/server: the keys of limits.ts. A key is the template that makes its text
-- with what it is filled with: the templates begin differently, and a day has a fixed length. The
-- UTC day, which the code prints, is its number.
pub mod Store
pub mod Access
use axel_sol.Prelude.{
  ℕ, ◌/◌, ◌≡◌, refl, arith, String, Bool, true, false, ◌&&◌, ◌==◌, str_eq, eq_iff,
}

abbrev pub day_seconds : ℕ
day_seconds = 86400

unfoldable pub utc_day : ℕ → ℕ
utc_day now = now / day_seconds

pub data Key : Type 0 where
  access_wallet : (wallet : String) → Key
  access_ip : (ip : String) (day : ℕ) → Key
  access_granted : Key
  shares : (wallet : String) → Key
  simulation_cooldown : Key
  simulation_wallet : (wallet : String) (day : ℕ) → Key

abbrev pub same_key : Key → Key → Bool
same_key (access_wallet a) (access_wallet b) = str_eq a b
same_key (access_ip a d) (access_ip b e) = str_eq a b && d == e
same_key access_granted access_granted = true
same_key (shares a) (shares b) = str_eq a b
same_key simulation_cooldown simulation_cooldown = true
same_key (simulation_wallet a d) (simulation_wallet b e) = str_eq a b && d == e
same_key _ _ = false

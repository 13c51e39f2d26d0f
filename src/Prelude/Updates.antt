-- ===== src/Prelude/Updates.antt =====
-- A map from texts with the value at one key changed.
use Prim.Native.String.{String}
use text.Mathlib.Text.{◌==◌ as str_eq}
use axel_sol.Prelude.Tests.{if◌then◌else◌}

abbrev pub change {ℓ} : {V : Type ℓ} → String → (V → V) → (String → V) → String → V
change key f g k = if str_eq key k then f (g k) else g k

-- ===== src/Base/Maps.antt =====
-- `std::unordered_map` with numbers for keys, as the function that looks a key up.
use Prim.Native.Nat.{ℕ}
use rubcase_lab.Base.Tests.{◌==◌, if◌then◌else◌}

module _ {ℓ} {V : Type ℓ} where
  -- A function changed at one argument.
  abbrev pub update : (ℕ → V) → ℕ → V → ℕ → V
  update f k v j = if k == j then v else f j

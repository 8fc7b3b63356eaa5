-- ===== src/Base/Vectors.antt =====
-- A `std::vector` that keeps the size it was given is a function from its indices: `v[i] = a` is
-- `put v i a`.
use Prim.Native.Nat.{ℕ}
use pto_fusebox.Base.Tests.{◌==◌, if◌then◌else◌}

abbrev pub Table {ℓ} : Type ℓ → Type ℓ
Table A = ℕ → A

module _ {ℓ} {A : Type ℓ} where
  abbrev pub put : Table A → ℕ → A → Table A
  put v i a j = if i == j then a else v j

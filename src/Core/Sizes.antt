-- ===== src/Core/Sizes.antt =====
-- storage-core/src/model/sizes.rs and storage-core/src/errors.rs: checked sizes.
-- `Bytes` and `Mib` wrap a u64 and are numbers here; the bound `≤ u64_max` is a hypothesis where a
-- theorem needs it. `?` is the bind of `Result`.
pub mod Laws
mod Examples
use pdisks.Base.{
  ℕ, ◌+◌, ◌*◌, ◌/◌, ◌%◌, List, [], ◌∷◌, Option, Result, ok, err, ok_or, ◌>>=◌, ltb, if◌then◌else◌,
  checked_add, checked_mul,
}

abbrev pub Bytes : Type 0
Bytes = ℕ

abbrev pub Mib : Type 0
Mib = ℕ

pub data GeometryError : Type 0 where
  overflow : GeometryError
  out_of_bounds : (start end device_size : ℕ) → GeometryError

-- `Bytes::checked_add`
unfoldable pub bytes_add : Bytes → Bytes → Result GeometryError Bytes
bytes_add a b = ok_or (checked_add a b) overflow

-- `Bytes::checked_mul`
unfoldable pub bytes_mul : Bytes → ℕ → Result GeometryError Bytes
bytes_mul a b = ok_or (checked_mul a b) overflow

-- The loop of `sum_checked` over its running total.
sum_from : Bytes → List Bytes → Result GeometryError Bytes
sum_from total [] = ok total
sum_from total (value ∷ values) = do total' ← bytes_add total value; sum_from total' values

unfoldable pub sum_checked : List Bytes → Result GeometryError Bytes
unfolding sum_from bytes_add
sum_checked values = sum_from 0 values

unfoldable pub range_within : Bytes → Bytes → Bytes → Result GeometryError Bytes
unfolding bytes_add
range_within start size device_size = bytes_add start size >>= λ end.
    if ltb device_size end then err (out_of_bounds start end device_size) else ok end

-- `Mib::bytes`
unfoldable pub mib_bytes : Mib → Result GeometryError Bytes
mib_bytes m = ok_or (checked_mul m (1024 * 1024)) overflow

unfoldable pub sectors_512 : Mib → Result GeometryError ℕ
unfolding mib_bytes
sectors_512 m = do bytes ← mib_bytes m; ok (bytes / 512)

-- `u64::div_ceil`
abbrev pub div_ceil : ℕ → ℕ → ℕ
div_ceil a b = if ltb 0 (a % b) then a / b + 1 else a / b

unfoldable pub from_sectors_512 : ℕ → Mib
from_sectors_512 sectors = div_ceil sectors 2048

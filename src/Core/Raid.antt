-- ===== src/Core/Raid.antt =====
-- storage-core/src/model/raid.rs: RAID layouts of LVM, MD and Btrfs.
use pdisks.Base.{ℕ, Option, none, some, leb, nat_beq, if◌then◌else◌}
use pdisks.Core.Sizes.{Bytes}

pub data LvmRaid0Variant : Type 0 where
  raid0 raid0_meta : LvmRaid0Variant

pub data ParityRotation : Type 0 where
  left_symmetric left_asymmetric right_symmetric right_asymmetric : ParityRotation

pub data LvmRaid5Layout : Type 0 where
  rotating : ParityRotation → LvmRaid5Layout
  parity_n : LvmRaid5Layout

pub data LvmRaid6Layout : Type 0 where
  zero_restart n_restart n_continue dedicated_parity : LvmRaid6Layout
  raid5_compatible : ParityRotation → LvmRaid6Layout

-- A `NonZeroU16` of at least 2.
abbrev pub CopyCount : Type 0
CopyCount = ℕ

-- The library's `then(..).flatten()`, over a `NonZeroU16::new` that refuses 0.
unfoldable pub new_copy_count : ℕ → Option CopyCount
new_copy_count value = if leb 2 value then (if nat_beq value 0 then none else some value) else none

abbrev pub DataStripeCount : Type 0
DataStripeCount = ℕ

unfoldable pub new_data_stripe_count : ℕ → Option DataStripeCount
new_data_stripe_count value = if nat_beq value 0 then none else some value

pub data LvmRaid : Type 0 where
  raid0 : LvmRaid0Variant → (data_width : DataStripeCount) (stripe_size : Bytes) → LvmRaid
  raid1 : (copies : CopyCount) → LvmRaid
  raid4 : (data_width : DataStripeCount) (stripe_size : Bytes) → LvmRaid
  raid5 : LvmRaid5Layout → (data_width : DataStripeCount) (stripe_size : Bytes) → LvmRaid
  raid6 : LvmRaid6Layout → (data_width : DataStripeCount) (stripe_size : Bytes) → LvmRaid
  raid10 : (copies : CopyCount) (data_width : DataStripeCount) (stripe_size : Bytes) → LvmRaid

pub data MdRaid0Layout : Type 0 where
  original alternate unspecified : MdRaid0Layout

pub data MdParityLayout : Type 0 where
  rotating : ParityRotation → MdParityLayout
  parity_first parity_last ddf_zero_restart ddf_n_restart ddf_n_continue : MdParityLayout

pub data MdRaid6DedicatedQ : Type 0 where
  left_symmetric6 right_symmetric6 left_asymmetric6 right_asymmetric6 parity_first6 :
      MdRaid6DedicatedQ

pub data MdRaid6Layout : Type 0 where
  standard : MdParityLayout → MdRaid6Layout
  dedicated_q : MdRaid6DedicatedQ → MdRaid6Layout

pub data MdRaid10Mode : Type 0 where
  near offset far : MdRaid10Mode

pub record MdRaid10Layout : Type 0 where
  pub mode : MdRaid10Mode
  pub copies : CopyCount

pub data MdRaid : Type 0 where
  raid0 : MdRaid0Layout → (chunk_size : Bytes) → MdRaid
  raid1 : MdRaid
  raid4 : (chunk_size : Bytes) → MdRaid
  raid5 : MdParityLayout → (chunk_size : Bytes) → MdRaid
  raid6 : MdRaid6Layout → (chunk_size : Bytes) → MdRaid
  raid10 : MdRaid10Layout → (chunk_size : Bytes) → MdRaid

pub data MdPersonality : Type 0 where
  raid : MdRaid → MdPersonality
  linear : (rounding : Option Bytes) → MdPersonality
  multipath faulty container : MdPersonality

pub data MdNativeMetadata : Type 0 where
  v0_90 v1_0 v1_1 v1_2 : MdNativeMetadata

pub data MdExternalMetadata : Type 0 where
  ddf imsm : MdExternalMetadata

pub data MdMetadata : Type 0 where
  no_metadata : MdMetadata
  native : MdNativeMetadata → MdMetadata
  external : MdExternalMetadata → MdMetadata

pub record MdArray : Type 0 where
  pub personality : MdPersonality
  pub metadata : MdMetadata

pub data BtrfsProfile : Type 0 where
  single dup raid0 raid1 raid1_c3 raid1_c4 raid10 raid5 raid6 : BtrfsProfile

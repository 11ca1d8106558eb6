-- ===== src/Blk/Integer.antt =====
-- The 64-bit packing of a block id.
use home_store.Prelude.{ℕ, ◌^◌, ◌<◌, ◌≡◌, ◌∙◌, ap, arith, of_le_bytes-le_bytes}
use home_store.Blk.{BlkId, Fits, to_integer, of_integer, serialize, deserialize, blkid_size}

pub to_integer-lt : (b : BlkId) → Fits b → to_integer b < 2 ^ 64
unfolding to_integer
to_integer-lt b f = ground arith

pub of_integer-to_integer : (b : BlkId) → Fits b → of_integer (to_integer b) ≡ b
unfolding to_integer of_integer
of_integer-to_integer b f = ground arith

pub of_integer-Fits : (n : ℕ) → Fits (of_integer n)
unfolding of_integer
of_integer-Fits n = omega arith

pub to_integer-of_integer : (n : ℕ) → n < 2 ^ 64 → to_integer (of_integer n) ≡ n
unfolding to_integer of_integer
to_integer-of_integer n h = ground arith

-- Reading the bytes of an id whose fields are in range gives the id back.
pub deserialize-serialize : (b : BlkId) → Fits b → deserialize (serialize b) ≡ b
unfolding serialize deserialize
deserialize-serialize b f =
    ap of_integer (of_le_bytes-le_bytes blkid_size (to_integer b) (to_integer-lt b f))
    ∙ of_integer-to_integer b f

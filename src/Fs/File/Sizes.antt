-- ===== src/Fs/File/Sizes.antt =====
-- The number of valid bytes that assign2/assign1/file.c gives for a block.
use cs.Prelude.{ℕ, zero, suc, ◌+◌, ◌-◌, ◌*◌, ◌/◌, ◌%◌, ◌<◌, ◌≤◌, ◌≡◌, ltb, if◌then◌else◌, arith}
use cs.Fs.File.{valid_bytes, num_blocks}

-- A block that begins before the end of the file has the bytes that are left there, at most 512.
pub valid_bytes-inside :
    (size b : ℕ)
    → b * 512 < size
    → valid_bytes size b ≡ (if ltb (size - b * 512) 512 then size - b * 512 else 512)
unfolding valid_bytes
valid_bytes-inside size b h = ground arith

-- A block that begins at or past the end of the file is given the size modulo 512 as its number of
-- valid bytes, and not 0.
pub valid_bytes-past_end : (size b : ℕ) → size ≤ b * 512 → valid_bytes size b ≡ size % 512
unfolding valid_bytes
valid_bytes-past_end size b h = ground arith

-- The valid bytes of so many blocks from block `b` on.
pub total_valid : (size left b : ℕ) → ℕ
total_valid size zero b = 0
total_valid size (suc left) b = valid_bytes size b + total_valid size left (b + 1)

total_valid-left :
    (size left b : ℕ) → b + left ≡ (size + 511) / 512 → total_valid size left b ≡ size - b * 512
unfolding total_valid
total_valid-left size zero b h = omega arith
total_valid-left size (suc left) b h =
    let rest = total_valid-left size left (b + 1) (omega arith) in
    let inside = valid_bytes-inside size b (omega arith) in ground (arith, rest, inside)

-- The valid bytes of all the blocks that the loops over a file visit add up to the file's size.
pub total_valid-num_blocks : (size : ℕ) → total_valid size (num_blocks size) 0 ≡ size
unfolding num_blocks
total_valid-num_blocks size =
    let all = total_valid-left size ((size + 511) / 512) 0 (omega arith) in omega arith

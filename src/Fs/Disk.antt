-- ===== src/Fs/Disk.antt =====
-- The disk below assign2/disksim.c: `lseek` and `read` on the image file are a parameter.
use cs.Prelude.{ℕ, ◌≡◌, Option, some, List, ◌++◌, length, drop}
use mathlib.Core.Option

abbrev pub sector_size : ℕ
sector_size = 512

-- The bytes of a buffer of one sector.
abbrev pub Buffer : Type 0
Buffer = List ℕ

-- `read` at a sector's offset yields the bytes it finds, at most 512 and fewer at the end of the
-- image, or -1, which is `none`. `stale` is what the caller's buffer held before.
pub record Disk : Type 0 where
  pub read : ℕ → Option (List ℕ)
  pub stale : ℕ → Buffer

-- A buffer of which `read` has overwritten the front.
abbrev pub overwrite : List ℕ → Buffer → Buffer
overwrite bytes old = bytes ++ drop (length bytes) old

-- `disksim_readsector`: the number of bytes read, and the buffer afterwards.
unfoldable pub disksim_readsector : Disk → ℕ → Option (ℕ × Buffer)
disksim_readsector d sector =
    Option.map (λ bytes. (length bytes, overwrite bytes (d.stale sector))) (d.read sector)

-- Every sector that can be read at all is read whole.
abbrev pub IsWhole : Disk → Type 0
IsWhole d = (sector : ℕ) (bytes : List ℕ) → d.read sector ≡ some bytes → length bytes ≡ sector_size

-- ===== src/Resmgr/Files.antt =====
-- What a program sees of a line's file: what it writes and reads back, and how long a read is.
use qnx_virtio.Common.{
  ℕ, ◌+◌, ◌-◌, ◌^◌, ◌≤◌, ◌<◌, ◌≡◌, refl, ap, Option, some, eok, ok, arith, if◌then◌else◌, ◌==◌, leb,
  min, u8, u16,
}
use qnx_virtio.Resmgr.{File, GpioCalls, read_size, resmgr_write, resmgr_read}

-- With sizes and offsets of at most 2 ^ 63, the size of a read is the smaller of what is asked for and
-- what is left of the file, but for a read that starts behind the end, which is not cut at all.
pub read_size-cut :
    (requested : ℕ) (file : File)
    → requested ≤ 2 ^ 63
    → file.nbytes ≤ 2 ^ 63
    → file.offset ≤ 2 ^ 63
    → read_size requested file ≡ (
        if leb file.offset file.nbytes
        then min requested (file.nbytes - file.offset)
        else requested)
unfolding read_size
read_size-cut requested file r n o = ground arith

read_size-line :
    (requested : ℕ) (file : File)
    → file.nbytes ≡ 1
    → file.offset ≡ 0
    → 0 < requested
    → read_size requested file ≡ 1
unfolding read_size
read_size-line requested file n o pos = ground arith

read_size-end :
    (requested : ℕ) (file : File) → file.nbytes ≡ 1 → file.offset ≡ 1 → read_size requested file ≡ 0
unfolding read_size
read_size-end requested file n o = ground arith

module _ {D : Type 0} (calls : GpioCalls D) where
  -- If the call that sets a line succeeds for the bit of a byte (0 for the digit '0', 1 for any other
  -- byte) and the call that gets it then succeeds with the same bit, a write of the byte to the
  -- line's file and a read of `n` > 0 bytes from the start of it, by one or two programs, both
  -- succeed: one byte is read, it is '0' if '0' was written and '1' if anything else was, the offset
  -- is then at the end of the file, and a further read returns no bytes and asks nothing of the
  -- device.
  pub read-write :
      (n m : ℕ) (byte : ℕ) (file file' : File) (g g1 g2 : D) (old : Option ℕ)
      → let bit : ℕ = if byte == 48 then 0 else 1 in
        calls.set_value (u16 file.index) bit g ≡ some (eok, old, g1)
        → calls.get_value (u16 file.index) g1 ≡ some (eok, some bit, g2)
        → file'.index ≡ file.index
        → file'.nbytes ≡ 1
        → file'.offset ≡ 0
        → 0 < n
        → (end : File) × (resmgr_write calls eok 1 (ok byte) file g ≡ some (eok, some 1, g1))
          × (resmgr_read calls eok n file' g1 ≡ some (eok, some 1, end, g2))
          × (end.value ≡ (if byte == 48 then 48 else 49))
          × (resmgr_read calls eok m end g2 ≡ some (eok, some 0, end, g2))
  unfolding resmgr_write resmgr_read
  read-write n m byte file file' g g1 g2 old set got index size start pos =
      let bit : ℕ = if byte == 48 then 0 else 1 in
      let end : File = record file' {
        value = u8 (bit + 48);
        offset = file'.offset + read_size n file';
      } in
      let whole : read_size n file' ≡ 1 = read_size-line n file' size start pos in
      let over : read_size m end ≡ 0 =
        read_size-end m end (omega (arith, size)) (omega (arith, start, whole)) in
      (
        end,
        ground (arith, set),
        ground (arith, got, whole, ap u16 index),
        ground arith,
        ground (arith, over),
      )

  -- If the call that gets the line succeeds, a read with sizes and offsets of at most 2 ^ 63 that asks
  -- for `n` > 0 bytes behind the end of a file replies with `n` bytes from the one that it has, and
  -- the offset moves on by `n`.
  pub read-past_end :
      (n : ℕ) (file : File) (g g' : D) (byte : ℕ)
      → calls.get_value (u16 file.index) g ≡ some (eok, some byte, g')
      → 0 < n
      → n ≤ 2 ^ 63
      → file.offset ≤ 2 ^ 63
      → file.nbytes < file.offset
      → (end : File) × (resmgr_read calls eok n file g ≡ some (eok, some n, end, g'))
        × (end.value ≡ u8 (byte + 48))
        × (end.offset ≡ file.offset + n)
  unfolding resmgr_read
  read-past_end n file g g' byte got pos small near past =
      let size : read_size n file ≡ n =
        ground (arith, read_size-cut n file small (omega arith) near) in
      (
        record file { value = u8 (byte + 48); offset = file.offset + read_size n file },
        ground (arith, got, size),
        refl,
        omega (arith, size),
      )

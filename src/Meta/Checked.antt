-- ===== src/Meta/Checked.antt =====
-- The shape that `nebula_mbr_read`, `nebula_superblock_read` and `nebula_uberblock_read_slot`
-- share: read one block, compare the magic, compare the stored checksum with a computed one.
use mini_fs.Base.{ℕ, not, ◌==◌, if◌then◌else◌, Result, ok, err, Cmd, ◌>>◌, eio}
use mini_fs.Format.Bytes.{Bytes, Field, load}
use mini_fs.Format.Consts.{block_size}
use mini_fs.Format.Crc.{checksum_of}
use mini_fs.Io.Raw.{Io, alloc_buf}
use mini_fs.Io.Posix.{io_read}

unfoldable pub check_block :
    (magic : Field) (value errno : ℕ) (checksum : Field) → Bytes → Result Bytes
check_block magic value errno checksum buf =
    if not (load magic buf == value)
    then err errno
    else if not (load checksum buf == checksum_of checksum block_size buf)
    then err eio
    else ok buf

unfoldable pub check_result :
    (magic : Field) (value errno : ℕ) (checksum : Field) → Result Bytes → Result Bytes
unfolding check_block
check_result magic value errno checksum (ok buf) = check_block magic value errno checksum buf
check_result magic value errno checksum (err e) = err e

unfoldable pub read_checked :
    (magic : Field) (value errno : ℕ) (checksum : Field) (lba : ℕ) → Cmd Io Bytes
unfolding check_result
read_checked magic value errno checksum lba = do
  alloc_buf
  λ io. let (r, io') = io_read lba 1 io in (check_result magic value errno checksum r, io')

-- ===== src/Format/Inode.antt =====
-- The fields of `struct nebula_inode`.
use mini_fs.Format.Bytes.{Field, field}
use mini_fs.Format.Structs.{inode_struct}

abbrev pub magic : Field
magic = field inode_struct 0

abbrev pub version : Field
version = field inode_struct 1

abbrev pub inode_num : Field
inode_num = field inode_struct 2

abbrev pub type : Field
type = field inode_struct 3

abbrev pub mode : Field
mode = field inode_struct 4

abbrev pub size_bytes : Field
size_bytes = field inode_struct 5

abbrev pub alloc_size_bytes : Field
alloc_size_bytes = field inode_struct 6

abbrev pub atime_ns : Field
atime_ns = field inode_struct 7

abbrev pub mtime_ns : Field
mtime_ns = field inode_struct 8

abbrev pub ctime_ns : Field
ctime_ns = field inode_struct 9

abbrev pub nlink : Field
nlink = field inode_struct 10

abbrev pub flags : Field
flags = field inode_struct 11

abbrev pub checksum : Field
checksum = field inode_struct 12

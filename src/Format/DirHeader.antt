-- ===== src/Format/DirHeader.antt =====
-- The fields of `struct nebula_dir_page_header`.
use mini_fs.Format.Bytes.{Field, field}
use mini_fs.Format.Structs.{dir_page_header_struct}

abbrev pub magic : Field
magic = field dir_page_header_struct 0

abbrev pub version : Field
version = field dir_page_header_struct 1

abbrev pub entry_size : Field
entry_size = field dir_page_header_struct 2

abbrev pub capacity : Field
capacity = field dir_page_header_struct 3

abbrev pub num_entries : Field
num_entries = field dir_page_header_struct 4

abbrev pub checksum : Field
checksum = field dir_page_header_struct 5

-- ===== src/Tests/Adapter.antt =====
-- A path as RocksDB gives it to the adapter.
use mini_fs.Base.{◌≡◌, refl, [], ◌∷◌}
use mini_fs.Dirs.Entry.{Name}
use mini_fs.RocksFs.Names.{basename}
use mini_fs.RocksFs.BaseLaws.{IsBase, basename-IsBase}

-- "/db/7"
abbrev table_path : Name
table_path = b'/' ∷ b'd' ∷ b'b' ∷ b'/' ∷ b'7' ∷ []

base_of_table : basename table_path ≡ b'7' ∷ []
unfolding basename
base_of_table = refl

basename-IsBase_example : IsBase table_path (basename table_path)
basename-IsBase_example = basename-IsBase table_path

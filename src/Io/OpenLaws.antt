-- ===== src/Io/OpenLaws.antt =====
-- The device that `nebula_io_open` makes of a file.
use mini_fs.Base.{
  ℕ, ◌/◌, ◌^◌, ◌≤◌, ◌<◌, ◌≡◌, refl, Bool, true, false, ◌&&◌, Option, none, some, List, [], ◌∷◌,
  arith, ltb, leb, if◌then◌else◌, ltb→lt, leb→le, Result, ok, err, pure, einval,
}
use mini_fs.Format.Consts.{block_size}
use mini_fs.Io.Raw.{Io}
use mini_fs.Io.Loops.{IsDevice}
use mini_fs.Base.Hoare.{Yields, Triple, Triple-bind, Triple-seq, guard-Triple}
use mini_fs.Io.Open.{
  Image, Host, answer, found, open_file, resized, truncate_file, handle_from, io_open,
}

-- The file of the host, if there is one, is one that `off_t` can address.
abbrev pub Addressable : Host → Type 0
Addressable h = (f : Image) → h.image ≡ some f → f.size < 2 ^ 63

-- The device stands for the file of the host: its whole blocks, at least one, and its bytes; and
-- the file has the size asked for, if it was asked for one.
pub record Opened (create : Bool) (size_bytes : ℕ) (io : Io) (h : Host) : Type 0 where
  pub file : Image
  pub is_file : h.image ≡ some file
  pub is_device : IsDevice io
  pub capacity : io.capacity_blocks ≡ file.size / block_size
  pub has_block : 0 < io.capacity_blocks
  pub bytes : io.disk ≡ file.content
  pub as_asked : (create && ltb 0 size_bytes) ≡ true → file.size ≡ size_bytes

-- The file that is open, and its size.
abbrev Holding : Image → Host → Type 0
Holding f h = (h.image ≡ some f) × (f.size < 2 ^ 63)

module _ {P : Host → Type 0} where
  answer-Triple : (fails : Option ℕ) → Triple P (answer fails) (λ u. P)
  unfolding answer
  answer-Triple none = record { run = λ h p. p }
  answer-Triple (some x) = record { run = λ h p. tt }

found-Triple :
    (create : Bool) (image : Option Image) (h : Host)
    → Addressable h
    → h.image ≡ image
    → Yields Holding (found image create h)
unfolding found
found-Triple create (some f) h p e = (e, p f e)
found-Triple true none h p e = (refl, omega arith)
found-Triple false none h p e = tt

open_file-Triple : (create : Bool) → Triple Addressable (open_file create) Holding
unfolding open_file
open_file-Triple create =
    Triple-seq (record { run = λ h p. (answer-Triple h.open_fails).run h p })
      (record { run = λ h p. found-Triple create h.image h p refl })

-- The open file after the request for a size.
abbrev Asked : (create : Bool) (size_bytes : ℕ) → Image → Host → Type 0
Asked create size_bytes f h =
    Holding f h × ((create && ltb 0 size_bytes) ≡ true → f.size ≡ size_bytes)

truncate_file-Triple :
    (size : ℕ) (f : Image)
    → Triple (Holding f) (truncate_file size f) (λ f' h. Holding f' h × (f'.size ≡ size))
unfolding truncate_file resized
truncate_file-Triple size f =
    Triple-seq (record { run = λ h p. (answer-Triple h.truncate_fails).run h p })
      (Triple-seq (guard-Triple (ltb size (2 ^ 63)) einval)
        (record { run = λ h p. ((refl, ltb→lt size (2 ^ 63) p.0), refl) }))

sized-Triple :
    (create : Bool) (size_bytes : ℕ) (f : Image) (test : Bool)
    → (create && ltb 0 size_bytes) ≡ test
    → Triple
        (Holding f)
        (if test then truncate_file size_bytes f else pure f)
        (Asked create size_bytes)
sized-Triple create size_bytes f true e = record {
  run = λ h p. weaken (truncate_file size_bytes f h) ((truncate_file-Triple size_bytes f).run h p);
}
  where
    weaken :
        (o : Result Image × Host)
        → Yields (λ f' h. Holding f' h × (f'.size ≡ size_bytes)) o
        → Yields (Asked create size_bytes) o
    weaken (ok f', h) (held, size) = (held, λ t. size)
    weaken (err x, h) u = tt
sized-Triple create size_bytes f false e = record { run = λ h p. (p, λ t. cc) }

handle-Triple :
    (create : Bool) (size_bytes : ℕ) (f : Image) (allocs : List Bool) (h : Host)
    → block_size ≤ f.size
    → Asked create size_bytes f h
    → Yields (Opened create size_bytes) (handle_from allocs f h)
unfolding handle_from
handle-Triple create size_bytes f [] h le p = record {
  file = f;
  is_file = p.0.0;
  is_device = omega (arith, p.0.1);
  capacity = refl;
  has_block = omega (arith, le);
  bytes = refl;
  as_asked = p.1;
}
handle-Triple create size_bytes f (true ∷ rest) h le p = record {
  file = f;
  is_file = p.0.0;
  is_device = omega (arith, p.0.1);
  capacity = refl;
  has_block = omega (arith, le);
  bytes = refl;
  as_asked = p.1;
}
handle-Triple create size_bytes f (false ∷ rest) h le p = tt

-- When the path names no file of 2^63 bytes or more: a device that `nebula_io_open` opens has at
-- least one block and fewer than 2^63 bytes; its blocks are the whole blocks of the file and their
-- bytes the file's; and a file that is created with a size has that size.
pub io_open-Opened :
    (create : Bool) (size_bytes : ℕ) (h : Host)
    → Addressable h
    → Yields (Opened create size_bytes) (io_open create size_bytes h)
unfolding io_open
io_open-Opened create size_bytes h p = opens.run h p
  where
    opens : Triple Addressable (io_open create size_bytes) (Opened create size_bytes)
    opens = Triple-bind (open_file-Triple create) (λ f.
        Triple-bind (sized-Triple create size_bytes f (create && ltb 0 size_bytes) refl) (λ g.
          Triple-seq (record { run = λ h q. (answer-Triple h.stat_fails).run h q })
            (Triple-seq (guard-Triple (leb block_size g.size) einval) (record {
              run = λ h q.
                  handle-Triple create size_bytes g h.allocs h (leb→le block_size g.size q.0) q.1;
            }))))

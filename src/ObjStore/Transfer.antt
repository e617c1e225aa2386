-- ===== src/ObjStore/Transfer.antt =====
-- One transfer of `ObjectStore::read`, as a part of what is asked for.
use mini_fs.Base.{
  ℕ, ◌+◌, ◌-◌, ◌*◌, ◌/◌, ◌%◌, ◌≤◌, ◌<◌, ◌≡◌, refl, sym, ap, ◌∙◌, inl, inr, arith, ltb, ltb→le,
  Bool-cases, u64_mod, add64, Result, ok, err,
}
use mini_fs.Format.Bytes.{Bytes, at, copy}
use mini_fs.Io.Raw.{Io}
use mini_fs.Io.Posix.{io_read}
use mini_fs.Io.Loops.{IsDevice, Filled}
use mini_fs.Io.Laws.{Read, io_read-Read}
use mini_fs.State.{on_io}
use mini_fs.ObjStore.Status.{error_io_failure, or_status, ◌>>=◌}
use mini_fs.ObjStore.Triple.{succeeds, fails, Post-chain}
use mini_fs.ObjStore.DbLaws.{Success}
use mini_fs.ObjStore.Records.{Chunk}
use mini_fs.ObjStore.Chunks.{on_mount}
use mini_fs.ObjStore.Append.{read_blocks}
use mini_fs.ObjStore.Reader.{Reading, take_bytes, fetch}

-- A read of `len` bytes of the device from byte `from` on, to index `to` of the destination `dst`,
-- up to offset `stop` of the object.
pub record Request : Type 0 where
  pub disk : Bytes
  pub dst : Bytes
  pub from : ℕ
  pub to : ℕ
  pub len : ℕ
  pub stop : ℕ

-- The bytes of the request that are done, up to `k` of them; the others are as they were.
abbrev pub FilledTo : Request → (k : ℕ) → Bytes → Type 0
FilledTo q k b =
    ((j : ℕ) → j < k → at b (q.to + j) ≡ at q.disk (q.from + j))
    × ((j : ℕ) → j < q.to → at b j ≡ at q.dst j)
    × ((j : ℕ) → q.to + k ≤ j → at b j ≡ at q.dst j)

FilledTo-copy :
    (q : Request) (k n from : ℕ) (b dst : Bytes)
    → FilledTo q k dst
    → ((j : ℕ) → j < n → at b (from + j) ≡ at q.disk (q.from + k + j))
    → FilledTo q (k + n) (copy dst (q.to + k) b from n)
unfolding copy
FilledTo-copy q k n from b dst (filled, low, high) h = (
  λ j less. elim (Bool-cases (ltb j k)) [
    | inl old ↦ ground (arith, filled j)
    | inr new ↦
        let e : q.from + k + (j - k) ≡ q.from + j = omega (arith, ltb→le j k new) in
        let e' : q.to + j - (q.to + k) ≡ j - k = omega (arith, ltb→le j k new) in
        let got = h (j - k) (omega (arith, ltb→le j k new)) in ground (arith, e, e', got)
  ],
  λ j out. ground (arith, low j),
  λ j out. ground (arith, high j),
)

module _ {D : Type 0} where
  -- The variables of the visitor when `q.len - rd.to_copy` bytes of the request are done.
  pub record Partly (q : Request) (c : Chunk) (size : ℕ) (rd : Reading D) : Type 0 where
    pub device : IsDevice rd.store.mount.io
    pub disk : rd.store.mount.io.disk ≡ q.disk
    pub left : rd.to_copy ≤ q.len
    pub place : c.lba_start * 4096 + rd.phys_byte_off ≡ q.from + (q.len - rd.to_copy)
    pub room : rd.remaining ≤ size
    pub cursor : rd.cursor_offset + rd.to_copy ≡ q.stop
    pub index : size - rd.remaining ≡ q.to + (q.len - rd.to_copy)
    pub enough : rd.to_copy ≤ rd.remaining
    pub bytes : FilledTo q (q.len - rd.to_copy) rd.dst

  -- What `n` bytes from byte `from` of a buffer do, where the buffer holds the bytes that come next.
  take_bytes-Partly :
      (q : Request) (c : Chunk) (size n from : ℕ) (b : Bytes) (rd : Reading D)
      → Partly q c size rd
      → n ≤ rd.to_copy
      → ((j : ℕ) → j < n → at b (from + j) ≡ at q.disk (c.lba_start * 4096 + rd.phys_byte_off + j))
      → Partly q c size (take_bytes size n from b rd).1
  unfolding take_bytes
  take_bytes-Partly q c size n from b rd p le h = record {
    device = p.device;
    disk = p.disk;
    left = omega (arith, p.left);
    place = omega (arith, p.left, p.place);
    room = omega (arith, p.room);
    cursor = omega (arith, p.cursor);
    index = omega (arith, p.left, p.room, p.index, p.enough);
    enough = omega (arith, p.enough);
    bytes =
        let k : q.len - (rd.to_copy - n) ≡ q.len - rd.to_copy + n = omega (arith, p.left) in
        rw (k, p.index)
          (FilledTo-copy q (q.len - rd.to_copy) n from b rd.dst p.bytes
            (λ j less. rw (sym p.place) (h j less)));
  }

  -- What a transfer into a buffer leaves: all as it was, and the blocks in the buffer.
  abbrev Fetched :
      (q : Request) (c : Chunk) (size lba blocks : ℕ) → Reading D → Bytes → Reading D → Type 0
  Fetched q c size lba blocks rd b rd' =
      Partly q c size rd'
      × (rd'.to_copy ≡ rd.to_copy)
      × (rd'.phys_byte_off ≡ rd.phys_byte_off)
      × Filled q.disk b (lba * 4096) (blocks * 4096)

  Read-Fetched :
      (q : Request) (c : Chunk) (size lba blocks : ℕ) (rd : Reading D) (out : Result Bytes × Io)
      → Partly q c size rd
      → Read lba blocks rd.store.mount.io out
      → Success (Fetched q c size lba blocks rd) (
        or_status error_io_failure out.0,
        record rd { store = record rd.store { mount = record rd.store.mount { io = out.1 } } },
      )
  Read-Fetched q c size lba blocks rd (ok b, io) p r = succeeds (
    record {
      device = omega (arith, p.device, r.capacity);
      disk = r.disk ∙ p.disk;
      left = p.left;
      place = p.place;
      room = p.room;
      cursor = p.cursor;
      index = p.index;
      enough = p.enough;
      bytes = p.bytes;
    },
    refl,
    refl,
    rw (sym p.disk) (r.bytes b refl),
  )
  Read-Fetched q c size lba blocks rd (err e, io) p r = fails tt

  fetch-Fetched :
      (q : Request) (c : Chunk) (size lba blocks : ℕ) (rd : Reading D)
      → Partly q c size rd
      → lba + blocks < u64_mod
      → Success (Fetched q c size lba blocks rd) (fetch lba blocks rd)
  unfolding fetch read_blocks on_mount on_io
  fetch-Fetched q c size lba blocks rd p small =
      Read-Fetched q c size lba blocks rd (io_read lba blocks rd.store.mount.io) p
        (io_read-Read lba blocks rd.store.mount.io p.device small)

  -- One transfer of `blocks` blocks, of which `n` bytes from byte `from` on are taken.
  abbrev pub Moved : (q : Request) (c : Chunk) (size n : ℕ) → Reading D → Reading D → Type 0
  Moved q c size n rd rd' =
      Partly q c size rd'
      × (rd'.to_copy ≡ rd.to_copy - n)
      × (rd'.phys_byte_off ≡ rd.phys_byte_off + n)

  pub transfer-Moved :
      (q : Request) (c : Chunk) (size blocks n from : ℕ) (rd : Reading D)
      → Partly q c size rd
      → n ≤ rd.to_copy
      → from + n ≤ blocks * 4096
      → rd.phys_byte_off % 4096 ≡ from
      → c.lba_start + rd.phys_byte_off / 4096 + blocks < u64_mod
      → Success
          (λ u rd'. Moved q c size n rd rd')
          ((do
            b ← fetch (add64 c.lba_start (rd.phys_byte_off / 4096)) blocks
            take_bytes size n from b)
            rd)
  unfolding take_bytes
  transfer-Moved q c size blocks n from rd p le inside aligned small =
      let lba = add64 c.lba_start (rd.phys_byte_off / 4096) in
      let e : lba ≡ c.lba_start + rd.phys_byte_off / 4096 = omega arith in
      Post-chain _ _ (fetch-Fetched q c size lba blocks rd p (omega arith))
        (λ b rd1 (p1, copied, phys, filled). succeeds (
          take_bytes-Partly q c size n from b rd1 p1 (omega arith) (λ j less.
              let place : c.lba_start * 4096 + rd1.phys_byte_off + j ≡ lba * 4096 + (from + j) =
                omega arith in
              rw place (filled (from + j) (omega arith))),
          ap (λ k. k - n) copied,
          ap (λ k. k + n) phys,
        ))

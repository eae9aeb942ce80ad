-- ===== src/Decode/Blobs.antt =====
-- MYSQL_TYPE_BLOB and MYSQL_TYPE_GEOMETRY of Rows_log_event_2::log_event_get_value_2
-- (rows_log_event_2/rows_log_event_2.cc). `length` is a uint32, and so are the sums with it.
use mysql_replication_c.Base.{ℕ, zero, suc, ◌+◌, ◌*◌, Option, none, some, ◌==◌, if◌then◌else◌}
use mysql_replication_c.Base.Int.{pos, negsuc, i32, u32}
use mysql_replication_c.Base.Outcome.{Outcome, ok, err, ◌>>=◌}
use mysql_replication_c.Text.{Bytes}
use mysql_replication_c.Block.{Malloc, alloc, load, deref, memset_zero, put}
use mysql_replication_c.Row.{
  ColumnType, DisplayBlobs, Value, Message, no_memory_for_value, unknown_blob_packlen,
  unknown_geometry_len, blob, geometry,
}
use mysql_replication_c.Mysql.{Mysql}
use mysql_replication_c.Decode.Result.{Decoded, set_text}
use mysql_replication_c.Decode.Bits.{sprint_as_hex, advance}

-- A null value of these types: -1 in `len` where blobs are not shown, else 0.
unfoldable pub null_blob : DisplayBlobs → ℕ → Value → Value
null_blob d hex v = record v {
  val = none;
  len = if d.blobs_display == 0 then negsuc 0 else pos 0;
  is_hex = hex;
}

-- A value that is not shown.
abbrev pub hidden : Value → Value
hidden v = record v { val = none; len = negsuc 0; is_hex = 0 }

module _ (malloc : Malloc) where
  -- The raw bytes, by memset and memcpy.
  unfoldable pub raw_blob : ColumnType → Bytes → ℕ → Value → Outcome Message Value
  raw_blob type p length v = do
    b ← alloc malloc (u32 (length + 16)) (no_memory_for_value type)
    b' ← memset_zero b (u32 (length + 16))
    w ← load length p
    b'' ← put b' 0 w
    ok (record v { val = some b''; len = i32 length; is_hex = 0 })

  -- The bytes in hex, by sprint_as_hex.
  unfoldable pub hex_blob : ColumnType → Bytes → ℕ → Value → Outcome Message Value
  hex_blob type p length v = do
    b ← alloc malloc (u32 (length * 2 + 16)) (no_memory_for_value type)
    b' ← sprint_as_hex b p length
    ok (record (set_text v b') { is_hex = 1 })

  -- The part of the two cases that depends on what is to be shown.
  unfoldable pub show_blob : ColumnType → ℕ → ℕ → Bytes → ℕ → Value → Outcome Message Value
  show_blob type blobs_display as_hex p length v =
      if blobs_display == 0
      then ok (hidden v)
      else if as_hex == 0
      then raw_blob type p length v
      else hex_blob type p length v

module _ (m : Mysql) where
  -- `switch ( meta )`: the length of the value, `blob_retval`, and `ptr` behind the length. The
  -- message of the default case prints `length`, which is still 0 there.
  unfoldable pub read_blob_length : ℕ → Bytes → Outcome Message (ℕ × ℕ × Bytes)
  read_blob_length (suc zero) p = do n ← deref p; q ← advance 1 p; ok (n, u32 (n + 1), q)
  read_blob_length (suc (suc zero)) p = do
    w ← load 2 p
    q ← advance 2 p
    ok (m.uint2korr w, u32 (m.uint2korr w + 2), q)
  read_blob_length (suc (suc (suc zero))) p = do
    w ← load 3 p
    q ← advance 3 p
    ok (m.uint3korr w, u32 (m.uint3korr w + 3), q)
  read_blob_length (suc (suc (suc (suc zero)))) p = do
    w ← load 4 p
    q ← advance 4 p
    ok (m.uint4korr w, u32 (m.uint4korr w + 4), q)
  read_blob_length _ p = err (unknown_blob_packlen 0)

module _ (m : Mysql) (malloc : Malloc) where
  -- MYSQL_TYPE_BLOB
  unfoldable pub get_blob : Option Bytes → ℕ → Value → DisplayBlobs → Decoded
  get_blob none meta v d = ok (0, null_blob d d.blob_as_hex v)
  get_blob (some p) meta v d = do
    l ← read_blob_length m meta p
    v' ← show_blob malloc blob d.blobs_display d.blob_as_hex l.2 l.0 v
    ok (l.1, v')

  unfoldable pub get_geometry_4 : Option Bytes → Value → DisplayBlobs → Decoded
  get_geometry_4 none v d = ok (0, null_blob d d.geometry_as_hex v)
  get_geometry_4 (some p) v d = do
    w ← load 4 p
    let length = m.uint4korr w
    q ← advance 4 p
    v' ← show_blob malloc geometry d.blobs_display d.geometry_as_hex q length v
    ok (u32 (length + 4), v')

  -- MYSQL_TYPE_GEOMETRY: `meta`, the bytes of the length, must be 4.
  unfoldable pub get_geometry : Option Bytes → ℕ → Value → DisplayBlobs → Decoded
  get_geometry ptr meta v d =
      if meta == 4 then get_geometry_4 ptr v d else err (unknown_geometry_len meta)

-- ===== src/Decode/Widths.antt =====
-- The bytes that log_event_get_value_2 (rows_log_event_2/rows_log_event_2.cc) takes of an event,
-- against the bytes that the server's sources count for a value.
use mysql_replication_c.Base.{
  ℕ, zero, suc, ◌+◌, ◌*◌, ==_iff, ◌/◌, ◌%◌, ◌^◌, ◌≤◌, ◌<◌, ◌≡◌, false, some, ◌==◌, length, arith,
  Bool-cases, inl, inr,
}
use mysql_replication_c.Text.{Bytes}
use mysql_replication_c.Block.{Malloc}
use mysql_replication_c.Row.{
  ColumnType, tiny, short, long, float, double, timestamp, longlong, int24, time, datetime, year,
  newdate, varchar, bit, timestamp2, datetime2, time2, json, newdecimal, enum, set, blob,
  var_string, string, geometry, other, DisplayBlobs, Value, ColInfo,
}
use mysql_replication_c.Mysql.{Mysql, Laws}
use mysql_replication_c.Decode.{real_type, get_value, log_event_get_value_2}
use mysql_replication_c.Decode.Strings.{get_varchar, get_string}
use mysql_replication_c.Decode.Blobs.{get_blob, get_geometry, read_blob_length}
use mysql_replication_c.Decode.BlobText.{blob_length}
use mysql_replication_c.Decode.VarcharText.{prefix_size, char_count}
use mysql_replication_c.Decode.Taking.{Takes}
use mysql_replication_c.Decode.FixedWidths.{
  long-Takes, tiny-Takes, short-Takes, int24-Takes, longlong-Takes, newdecimal-Takes, float-Takes,
  double-Takes, timestamp-Takes, timestamp2-Takes, datetime-Takes, datetime2-Takes, time-Takes,
  time2-Takes, newdate-Takes, year-Takes, bit-Takes, enum-Takes, set-Takes,
}
use mysql_replication_c.Decode.JsonWidths.{json_value}
use mysql_replication_c.Decode.StoredWidths.{string-Takes, blob-Takes, geometry-Takes}

-- The bytes of a value of a type, behind a pointer. The types that start with their length are read
-- there.
unfoldable pub width : Mysql → ColumnType → ℕ → ℕ → Bytes → ℕ
width m tiny length meta p = 1
width m short length meta p = 2
width m int24 length meta p = 3
width m long length meta p = 4
width m longlong length meta p = 8
width m float length meta p = 4
width m double length meta p = 8
width m newdecimal length meta p = m.decimal_size (meta / 256) (meta % 256)
width m bit length meta p = (meta / 256 * 8 + meta % 256 + 7) / 8
width m timestamp length meta p = 4
width m timestamp2 length meta p = m.timestamp_length meta
width m datetime length meta p = 8
width m datetime2 length meta p = m.datetime_length meta
width m time length meta p = 3
width m time2 length meta p = m.time_length meta
width m newdate length meta p = 3
width m year length meta p = 1
width m enum length meta p = meta % 256
width m set length meta p = meta % 256
width m blob length meta p = meta + blob_length meta p
width m varchar length meta p = prefix_size meta + char_count meta p
width m var_string length meta p = prefix_size meta + char_count meta p
width m string length meta p = prefix_size length + char_count length p
width m json length meta p = meta + blob_length meta p
width m geometry length meta p = meta + blob_length meta p
width m (other n) length meta p = 0

-- The bytes that a column takes: those of its real type.
abbrev pub column_width : Mysql → ColumnType → ℕ → Bytes → ℕ
column_width m type meta p = let r = real_type m type meta in width m r.0 r.1 meta p

module _ (m : Mysql) (laws : Laws m) (malloc : Malloc) (p : Bytes) (v : Value) where
  geometry_value :
      (meta : ℕ) (d : DisplayBlobs)
      → meta + blob_length meta p ≤ length p
      → 2 * length p + 16 < 2 ^ 31
      → Takes (meta + blob_length meta p) (get_geometry m malloc (some p) meta v d)
  unfolding get_geometry
  geometry_value meta d whole small = elim (Bool-cases (meta == 4)) [
    | inl a ↦
        let e : meta ≡ 4 = (==_iff meta 4).0 a in
        rw e (geometry-Takes m laws malloc p v d (rw e at whole) small)
    | inr a ↦ rw a tt
  ]

  blob_value :
      (meta : ℕ) (d : DisplayBlobs)
      → meta + blob_length meta p ≤ length p
      → 2 * length p + 16 < 2 ^ 31
      → Takes (meta + blob_length meta p) (get_blob m malloc (some p) meta v d)
  unfolding get_blob read_blob_length
  blob_value zero d whole small = tt
  blob_value (suc zero) d whole small =
      blob-Takes m laws malloc p v 1 d (omega arith) (omega arith) whole small
  blob_value (suc (suc zero)) d whole small =
      blob-Takes m laws malloc p v 2 d (omega arith) (omega arith) whole small
  blob_value (suc (suc (suc zero))) d whole small =
      blob-Takes m laws malloc p v 3 d (omega arith) (omega arith) whole small
  blob_value (suc (suc (suc (suc zero)))) d whole small =
      blob-Takes m laws malloc p v 4 d (omega arith) (omega arith) whole small
  blob_value (suc (suc (suc (suc (suc k))))) d whole small = tt

  value-Takes :
      (type : ColumnType) (size meta : ℕ) (info : ColInfo) (d : DisplayBlobs)
      → width m type size meta p ≤ length p
      → 2 * length p + 16 < 2 ^ 31
      → Takes (width m type size meta p) (get_value m malloc type size (some p) meta false v info d)
  unfolding width get_value get_varchar get_string
  value-Takes tiny size meta info d h small = tiny-Takes m malloc p v info h
  value-Takes short size meta info d h small = short-Takes m malloc p v info h
  value-Takes int24 size meta info d h small = int24-Takes m malloc p v info h
  value-Takes long size meta info d h small = long-Takes m malloc p v info h
  value-Takes longlong size meta info d h small = longlong-Takes m malloc p v info h
  value-Takes float size meta info d h small = float-Takes m malloc p v h
  value-Takes double size meta info d h small = double-Takes m malloc p v h
  value-Takes newdecimal size meta info d h small = newdecimal-Takes m malloc p v meta h
  value-Takes bit size meta info d h small = bit-Takes m malloc p v meta h
  value-Takes timestamp size meta info d h small = timestamp-Takes m malloc p v h
  value-Takes timestamp2 size meta info d h small = timestamp2-Takes m malloc p v meta h
  value-Takes datetime size meta info d h small = datetime-Takes m malloc p v h
  value-Takes datetime2 size meta info d h small = datetime2-Takes m malloc p v meta h
  value-Takes time size meta info d h small = time-Takes m malloc p v h
  value-Takes time2 size meta info d h small = time2-Takes m malloc p v meta h
  value-Takes newdate size meta info d h small = newdate-Takes m malloc p v h
  value-Takes year size meta info d h small = year-Takes m malloc p v h
  value-Takes enum size meta info d h small = enum-Takes m malloc p v meta h
  value-Takes set size meta info d h small = set-Takes m malloc p v meta h
  value-Takes blob size meta info d h small = blob_value meta d h small
  value-Takes varchar size meta info d h small =
      string-Takes m laws malloc p v varchar meta h (omega arith)
  value-Takes var_string size meta info d h small =
      string-Takes m laws malloc p v varchar meta h (omega arith)
  value-Takes string size meta info d h small =
      string-Takes m laws malloc p v string size h (omega arith)
  value-Takes json size meta info d h small = json_value m laws malloc p v meta d h (omega arith)
  value-Takes geometry size meta info d h small = geometry_value meta d h small
  value-Takes (other n) size meta info d h small = tt

  -- A value of any column type, but for the partial JSON of an update, in an event of less than
  -- 2^30 - 8 bytes: where the bytes that the type takes are in the event, nothing is read or written
  -- out of bounds, whatever the heap grants and whatever is to be shown, and where the call succeeds
  -- it takes exactly those bytes.
  pub log_event_get_value_2-Takes :
      (type : ColumnType) (meta : ℕ) (info : ColInfo) (d : DisplayBlobs)
      → column_width m type meta p ≤ length p
      → 2 * length p + 16 < 2 ^ 31
      → Takes
          (column_width m type meta p)
          (log_event_get_value_2 m malloc (some p) type meta false v info d)
  unfolding log_event_get_value_2
  log_event_get_value_2-Takes type meta info d h small =
      let r = real_type m type meta in value-Takes r.0 r.1 meta info d h small

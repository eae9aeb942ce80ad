-- ===== src/Decode/Texts.antt =====
-- The value of every type that log_event_get_value_2 (rows_log_event_2/rows_log_event_2.cc) gives out
-- holds a C string.
use mysql_replication_c.Base.{
  ℕ, ◌+◌, ◌*◌, Bool, true, false, Option, none, some, if◌then◌else◌, ◌==◌, Bool-cases, inl, inr,
  length,
}
use mysql_replication_c.Base.Int.{u32}
use mysql_replication_c.Base.Outcome.{ok, Holds, Holds-bind, Holds-after}
use mysql_replication_c.Text.{Bytes}
use mysql_replication_c.Block.{Malloc, alloc, snprintf, load, c_str, memset_zero}
use mysql_replication_c.Row.{
  ColumnType, tiny, short, long, float, double, timestamp, longlong, int24, time, datetime, year,
  newdate, varchar, bit, timestamp2, datetime2, time2, json, newdecimal, enum, set, blob,
  var_string, string, geometry, other, DisplayBlobs, Value, ColInfo, Message, no_memory_for_value,
}
use mysql_replication_c.Mysql.{Mysql}
use mysql_replication_c.Decode.{real_type, get_value, log_event_get_value_2}
use mysql_replication_c.Decode.Bits.{sprint_as_hex, advance}
use mysql_replication_c.Decode.Blobs.{
  null_blob, hidden, raw_blob, hex_blob, show_blob, get_blob, get_geometry_4, get_geometry,
}
use mysql_replication_c.Decode.Json.{
  document_text, partial_text, store_json, show_json, get_json_4, get_json,
}
use mysql_replication_c.Decode.Ending.{HasNul, snprintf-HasNul, raw-HasNul}
use mysql_replication_c.Decode.TextSteps.{IsText, Gives, skip, sprint_as_hex-Ends}
use mysql_replication_c.Decode.TextTypes.{
  bit-Gives, datetime-Gives, datetime2-Gives, double-Gives, enum-Gives, float-Gives, int24-Gives,
  long-Gives, longlong-Gives, newdate-Gives, newdecimal-Gives, set-Gives, short-Gives, string-Gives,
  time-Gives, time2-Gives, timestamp-Gives, timestamp2-Gives, tiny-Gives, varchar-Gives, year-Gives,
}

module _ (m : Mysql) (malloc : Malloc) (v : Value) (h : IsText v) where
  raw_blob-IsText :
      (type : ColumnType) (p : Bytes) (n : ℕ) → Holds IsText (raw_blob malloc type p n v)
  unfolding raw_blob
  raw_blob-IsText type p n = raw-HasNul IsText malloc n p (no_memory_for_value type) _ (λ b k. k)

  hex_blob-IsText :
      (type : ColumnType) (p : Bytes) (n : ℕ) → Holds IsText (hex_blob malloc type p n v)
  unfolding hex_blob
  hex_blob-IsText type p n =
      Holds-after IsText (alloc malloc (u32 (n * 2 + 16)) (no_memory_for_value type)) _ (λ b.
        Holds-bind (λ b'. HasNul b'.bytes) IsText (sprint_as_hex b p n) _ (sprint_as_hex-Ends b p n)
          (λ b' k. k))

  show_blob-IsText :
      (type : ColumnType) (show hex : ℕ) (p : Bytes) (n : ℕ)
      → Holds IsText (show_blob malloc type show hex p n v)
  unfolding show_blob
  show_blob-IsText type show hex p n = elim (Bool-cases (show == 0)) [
    | inl a ↦ rw a tt
    | inr a ↦ elim (Bool-cases (hex == 0)) [
      | inl b ↦ rw (a, b) (raw_blob-IsText type p n)
      | inr b ↦ rw (a, b) (hex_blob-IsText type p n)
    ]
  ]

  blob-Gives :
      (p : Option Bytes) (meta : ℕ) (d : DisplayBlobs) → Gives (get_blob m malloc p meta v d)
  unfolding get_blob null_blob
  blob-Gives none meta d = tt
  blob-Gives (some p) meta d = skip _ _ (λ l.
      Holds-bind IsText (λ r. IsText r.1)
        (show_blob malloc blob d.blobs_display d.blob_as_hex l.2 l.0 v) _
        (show_blob-IsText blob d.blobs_display d.blob_as_hex l.2 l.0) (λ w k. k))

  geometry_4-Gives : (p : Option Bytes) (d : DisplayBlobs) → Gives (get_geometry_4 m malloc p v d)
  unfolding get_geometry_4 null_blob
  geometry_4-Gives none d = tt
  geometry_4-Gives (some p) d = skip (load 4 p) _ (λ w. skip (advance 4 p) _ (λ q.
      Holds-bind IsText (λ r. IsText r.1)
        (show_blob malloc geometry d.blobs_display d.geometry_as_hex q (m.uint4korr w) v) _
        (show_blob-IsText geometry d.blobs_display d.geometry_as_hex q (m.uint4korr w)) (λ w k. k)))

  geometry-Gives :
      (p : Option Bytes) (meta : ℕ) (d : DisplayBlobs) → Gives (get_geometry m malloc p meta v d)
  unfolding get_geometry
  geometry-Gives p meta d = elim (Bool-cases (meta == 4)) [
    | inl a ↦ rw a (geometry_4-Gives p d)
    | inr a ↦ rw a tt
  ]

  store_json-IsText : (e : Message) (text : Bytes) → Holds IsText (store_json m malloc e text v)
  unfolding store_json
  store_json-IsText e text = Holds-after IsText (alloc malloc (length (c_str text) + 16) e) _ (λ b.
      Holds-after IsText (memset_zero b (length (c_str text) + 16)) _ (λ b'.
        Holds-bind (λ b''. HasNul b''.bytes) IsText
          (snprintf b' 0 (length (c_str text) + 1) (c_str text)) _ (snprintf-HasNul b' 0 _ _)
          (λ b'' k. k)))

  show_json-IsText :
      (is_partial : Bool) (p : Bytes) (n : ℕ) → Holds IsText (show_json m malloc is_partial p n v)
  unfolding show_json
  show_json-IsText true p n = Holds-after IsText (partial_text m p n) _ (λ t. store_json-IsText _ t)
  show_json-IsText false p n =
      Holds-after IsText (load n p) _
        (λ w. Holds-after IsText (document_text (m.parse_json w) _) _ (λ t. store_json-IsText _ t))

  shown :
      (is_partial : Bool) (q : Bytes) (n : ℕ) (d : DisplayBlobs)
      → Holds IsText
          (if d.blobs_display == 0 then ok (hidden v) else show_json m malloc is_partial q n v)
  shown is_partial q n d = elim (Bool-cases (d.blobs_display == 0)) [
    | inl a ↦ rw a tt
    | inr a ↦ rw a (show_json-IsText is_partial q n)
  ]

  json_4-Gives :
      (p : Option Bytes) (is_partial : Bool) (d : DisplayBlobs)
      → Gives (get_json_4 m malloc p is_partial v d)
  unfolding get_json_4 null_blob
  json_4-Gives none is_partial d = tt
  json_4-Gives (some p) is_partial d = skip (load 4 p) _ (λ w. skip (advance 4 p) _ (λ q.
      Holds-bind IsText (λ r. IsText r.1)
        (if d.blobs_display == 0
          then ok (hidden v)
          else show_json m malloc is_partial q (m.uint4korr w) v)
        _ (shown is_partial q (m.uint4korr w) d) (λ w k. k)))

  json-Gives :
      (p : Option Bytes) (meta : ℕ) (is_partial : Bool) (d : DisplayBlobs)
      → Gives (get_json m malloc p meta is_partial v d)
  unfolding get_json
  json-Gives p meta is_partial d = elim (Bool-cases (meta == 4)) [
    | inl a ↦ rw a (json_4-Gives p is_partial d)
    | inr a ↦ rw a tt
  ]

  get_value-Gives :
      (type : ColumnType) (n : ℕ) (p : Option Bytes) (meta : ℕ) (is_partial : Bool) (info : ColInfo)
      (d : DisplayBlobs)
      → Gives (get_value m malloc type n p meta is_partial v info d)
  unfolding get_value
  get_value-Gives long n p meta is_partial info d = long-Gives m malloc v h p info
  get_value-Gives tiny n p meta is_partial info d = tiny-Gives m malloc v h p info
  get_value-Gives short n p meta is_partial info d = short-Gives m malloc v h p info
  get_value-Gives int24 n p meta is_partial info d = int24-Gives m malloc v h p info
  get_value-Gives longlong n p meta is_partial info d = longlong-Gives m malloc v h p info
  get_value-Gives newdecimal n p meta is_partial info d = newdecimal-Gives m malloc v h p meta
  get_value-Gives float n p meta is_partial info d = float-Gives m malloc v h p
  get_value-Gives double n p meta is_partial info d = double-Gives m malloc v h p
  get_value-Gives bit n p meta is_partial info d = bit-Gives m malloc v h p meta
  get_value-Gives timestamp n p meta is_partial info d = timestamp-Gives m malloc v h p
  get_value-Gives timestamp2 n p meta is_partial info d = timestamp2-Gives m malloc v h p meta
  get_value-Gives datetime n p meta is_partial info d = datetime-Gives m malloc v h p
  get_value-Gives datetime2 n p meta is_partial info d = datetime2-Gives m malloc v h p meta
  get_value-Gives time n p meta is_partial info d = time-Gives m malloc v h p
  get_value-Gives time2 n p meta is_partial info d = time2-Gives m malloc v h p meta
  get_value-Gives newdate n p meta is_partial info d = newdate-Gives m malloc v h p
  get_value-Gives year n p meta is_partial info d = year-Gives m malloc v h p
  get_value-Gives enum n p meta is_partial info d = enum-Gives m malloc v h p meta
  get_value-Gives set n p meta is_partial info d = set-Gives m malloc v h p meta
  get_value-Gives blob n p meta is_partial info d = blob-Gives p meta d
  get_value-Gives varchar n p meta is_partial info d = varchar-Gives m malloc v h p meta
  get_value-Gives var_string n p meta is_partial info d = varchar-Gives m malloc v h p meta
  get_value-Gives string n p meta is_partial info d = string-Gives m malloc v h p n
  get_value-Gives json n p meta is_partial info d = json-Gives p meta is_partial d
  get_value-Gives geometry n p meta is_partial info d = geometry-Gives p meta d
  get_value-Gives (other k) n p meta is_partial info d = tt

  pub log_event_get_value_2-Gives :
      (p : Option Bytes) (type : ColumnType) (meta : ℕ) (is_partial : Bool) (info : ColInfo)
      (d : DisplayBlobs)
      → Gives (log_event_get_value_2 m malloc p type meta is_partial v info d)
  unfolding log_event_get_value_2
  log_event_get_value_2-Gives p type meta is_partial info d =
      get_value-Gives (real_type m type meta).0 (real_type m type meta).1 p meta is_partial info d

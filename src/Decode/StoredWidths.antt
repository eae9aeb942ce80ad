-- ===== src/Decode/StoredWidths.antt =====
-- The types of log_event_get_value_2 (rows_log_event_2/rows_log_event_2.cc) whose values start with
-- their length.
use mysql_replication_c.Base.{
  ℕ, ◌+◌, ◌*◌, ◌^◌, ◌≤◌, ◌<◌, ◌≡◌, refl, some, ◌==◌, length, take, drop, arith, length-drop,
  Bool-cases, inl, inr, true,
}
use mysql_replication_c.Base.Outcome.{Safe, Safe-bind}
use mysql_replication_c.Base.Int.{u32}
use mysql_replication_c.Text.{Bytes}
use mysql_replication_c.Block.{Malloc, alloc}
use mysql_replication_c.Block.Steps.{load-eq-ok}
use mysql_replication_c.Row.{ColumnType, Value, DisplayBlobs, Message, geometry, blob}
use mysql_replication_c.Mysql.{Mysql, Laws}
use mysql_replication_c.Decode.Strings.{read_real_len, print_string, get_varchar}
use mysql_replication_c.Decode.Blobs.{
  raw_blob, hex_blob, show_blob, get_blob, get_geometry, get_geometry_4,
}
use mysql_replication_c.Decode.BlobText.{
  blob_length, read_blob_length_lem, raw_blob_lem, hex_blob_lem, advance-eq-ok, length-prefix,
}
use mysql_replication_c.Decode.VarcharText.{prefix_size, char_count, get_varchar_lem}
use mysql_replication_c.Decode.Taking.{Takes, granted_enough, granted_behind}

module _ (m : Mysql) (laws : Laws m) (malloc : Malloc) (p : Bytes) (v : Value) where
  pub string-Takes :
      (type : ColumnType) (size : ℕ)
      → prefix_size size + char_count size p ≤ length p
      → length p + 16 < 2 ^ 31
      → Takes (prefix_size size + char_count size p) (print_string m malloc type p size v)
  unfolding print_string alloc get_varchar
  string-Takes type size whole small =
      let given : Takes (prefix_size size + char_count size p)
          (get_varchar m (λ k. true) (some p) size v) =
        rw (get_varchar_lem m laws (λ k. true) (λ k. refl) size p v whole small) (omega arith) in
      granted_behind (λ r. r.0 ≡ prefix_size size + char_count size p) malloc
        (read_real_len m p size) (λ n. n + 16) _ _ given

  raw_Safe :
      (type : ColumnType) (n : ℕ) (q : Bytes)
      → n ≤ length q
      → n + 16 < 2 ^ 31
      → Safe (λ w. Unit {0}) (raw_blob malloc type q n v)
  unfolding raw_blob
  raw_Safe type n q l small =
      let given : Safe (λ w. Unit {0}) (raw_blob (λ k. true) type q n v) =
        rw (raw_blob_lem (λ k. true) (λ k. refl) type q n v l small) tt in
      granted_enough (λ w. Unit {0}) malloc (u32 (n + 16)) _ _ given

  hex_Safe :
      (type : ColumnType) (n : ℕ) (q : Bytes)
      → n ≤ length q
      → 2 * n + 16 < 2 ^ 31
      → Safe (λ w. Unit {0}) (hex_blob malloc type q n v)
  unfolding hex_blob
  hex_Safe type n q l small =
      let given : Safe (λ w. Unit {0}) (hex_blob (λ k. true) type q n v) =
        rw (hex_blob_lem (λ k. true) (λ k. refl) type q n v l small) tt in
      granted_enough (λ w. Unit {0}) malloc (u32 (n * 2 + 16)) _ _ given

  shown_Safe :
      (type : ColumnType) (display as_hex n : ℕ) (q : Bytes)
      → n ≤ length q
      → 2 * n + 16 < 2 ^ 31
      → Safe (λ w. Unit {0}) (show_blob malloc type display as_hex q n v)
  unfolding show_blob
  shown_Safe type display as_hex n q l small = elim (Bool-cases (display == 0)) [
    | inl a ↦ rw a tt
    | inr a ↦ elim (Bool-cases (as_hex == 0)) [
      | inl b ↦ rw (a, b) (raw_Safe type n q l (omega arith))
      | inr b ↦ rw (a, b) (hex_Safe type n q l small)
    ]
  ]

  pub blob-Takes :
      (meta : ℕ) (d : DisplayBlobs)
      → 0 < meta
      → meta ≤ 4
      → meta + blob_length meta p ≤ length p
      → 2 * length p + 16 < 2 ^ 31
      → Takes (meta + blob_length meta p) (get_blob m malloc (some p) meta v d)
  unfolding get_blob
  blob-Takes meta d low high whole small =
      let l = blob_length meta p in
      let size : u32 (l + meta) ≡ meta + l = omega arith in
      rw (read_blob_length_lem m laws meta p low high (omega arith), size)
        (Safe-bind (λ w. Unit {0}) (λ r. r.0 ≡ meta + l)
          (show_blob malloc blob d.blobs_display d.blob_as_hex (drop meta p) l v) _
          (shown_Safe blob d.blobs_display d.blob_as_hex l (drop meta p)
            (omega (arith, length-drop meta p)) (omega arith))
          (λ w u. refl))

  pub geometry-Takes :
      (d : DisplayBlobs)
      → 4 + blob_length 4 p ≤ length p
      → 2 * length p + 16 < 2 ^ 31
      → Takes (4 + blob_length 4 p) (get_geometry m malloc (some p) 4 v d)
  unfolding get_geometry get_geometry_4
  geometry-Takes d whole small =
      let l = blob_length 4 p in
      let size : u32 (l + 4) ≡ 4 + l = omega arith in
      rw
        (
          load-eq-ok {E = Message} 4 p (omega arith),
          laws.uint4_lem (take 4 p) (length-prefix 4 p (omega arith)),
          advance-eq-ok 4 p (omega arith),
          size,
        )
        (Safe-bind (λ w. Unit {0}) (λ r. r.0 ≡ 4 + l)
          (show_blob malloc geometry d.blobs_display d.geometry_as_hex (drop 4 p) l v) _
          (shown_Safe geometry d.blobs_display d.geometry_as_hex l (drop 4 p)
            (omega (arith, length-drop 4 p)) (omega arith))
          (λ w u. refl))

-- ===== src/Decode/BlobText.antt =====
-- What is shown of a BLOB column: nothing, its bytes, or its bytes in hex.
use mysql_replication_c.Base.{
  ℕ, zero, suc, ◌+◌, ◌*◌, ◌^◌, ◌≤◌, ◌<◌, ◌≡◌, refl, [], ◌∷◌, ◌++◌, Bool, true, none, some, length,
  take, drop, replicate, arith, length-take,
}
use mysql_replication_c.Base.Int.{pos, negsuc, u32, i32-pos}
use mysql_replication_c.Base.Outcome.{ok}
use mysql_replication_c.Text.{Bytes}
use mysql_replication_c.Block.{Block, Malloc, deref}
use mysql_replication_c.Block.Strlen.{put_behind}
use mysql_replication_c.Block.Steps.{text_block, alloc-eq-ok, load-eq-ok, memset_fresh, strlen_text}
use mysql_replication_c.Row.{ColumnType, blob, Value, ColInfo, DisplayBlobs, Message}
use mysql_replication_c.Mysql.{Mysql, Laws, little_endian}
use mysql_replication_c.Decode.Bits.{advance}
use mysql_replication_c.Decode.Hex.{
  hex_texts, hex_texts-NonNul, length-hex_texts, sprint_as_hex_lem,
}
use mysql_replication_c.Decode.Blobs.{raw_blob, hex_blob, show_blob, read_blob_length, get_blob}
use mysql_replication_c.Decode.{log_event_get_value_2, get_value, real_type}

pub advance-eq-ok : (n : ℕ) (p : Bytes) → n ≤ length p → advance n p ≡ ok (drop n p)
unfolding advance
advance-eq-ok zero p h = refl
advance-eq-ok (suc n) [] h = absurd (omega arith)
advance-eq-ok (suc n) (c ∷ p) h = advance-eq-ok n p (omega arith)

-- The length that stands before a BLOB, and its content.
abbrev pub blob_length : ℕ → Bytes → ℕ
blob_length meta p = little_endian (take meta p)

abbrev pub blob_content : ℕ → Bytes → Bytes
blob_content meta p = take (blob_length meta p) (drop meta p)

pub length-prefix : (n : ℕ) (p : Bytes) → n ≤ length p → length (take n p) ≡ n
length-prefix n p h = omega (arith, length-take n p)

module _ (m : Mysql) (laws : Laws m) where
  pub read_blob_length_lem :
      (meta : ℕ) (p : Bytes)
      → 0 < meta
      → meta ≤ 4
      → meta ≤ length p
      → read_blob_length m meta p
        ≡ ok (blob_length meta p, u32 (blob_length meta p + meta), drop meta p)
  unfolding read_blob_length
  read_blob_length_lem zero p h f l = absurd (omega arith)
  read_blob_length_lem (suc zero) [] h f l = absurd (omega arith)
  read_blob_length_lem (suc zero) (c ∷ p) h f l =
      let e : c ≡ c + 256 * 0 = omega arith in unfold deref advance in rw (← e)
  read_blob_length_lem (suc (suc zero)) p h f l =
      rw (load-eq-ok 2 p l, advance-eq-ok 2 p l, laws.uint2_lem (take 2 p) (length-prefix 2 p l))
  read_blob_length_lem (suc (suc (suc zero))) p h f l =
      rw (load-eq-ok 3 p l, advance-eq-ok 3 p l, laws.uint3_lem (take 3 p) (length-prefix 3 p l))
  read_blob_length_lem (suc (suc (suc (suc zero)))) p h f l =
      rw (load-eq-ok 4 p l, advance-eq-ok 4 p l, laws.uint4_lem (take 4 p) (length-prefix 4 p l))
  read_blob_length_lem (suc (suc (suc (suc (suc k))))) p h f l = absurd (omega arith)

module _ (malloc : Malloc) (granted : (n : ℕ) → malloc n ≡ true) where
  pub raw_blob_lem :
      (type : ColumnType) (p : Bytes) (n : ℕ) (v : Value)
      → n ≤ length p
      → n + 16 < 2 ^ 31
      → raw_blob malloc type p n v
        ≡ ok (record {
          val = some (record { cap = n + 16; bytes = take n p ++ drop n (replicate (n + 16) 0) });
          len = pos n;
          is_hex = 0;
        })
  unfolding raw_blob
  raw_blob_lem type p n v l small =
      let size : u32 (n + 16) ≡ n + 16 = omega arith in
      rw (
        size,
        alloc-eq-ok malloc (n + 16) _ (granted _),
        memset_fresh {E = Message} (n + 16),
        load-eq-ok n p l,
        put_behind {E = Message} (n + 16) [] (replicate (n + 16) 0) (take n p)
            (omega (arith, length-prefix n p l)),
        length-prefix n p l,
        i32-pos n (omega arith),
      )

  pub hex_blob_lem :
      (type : ColumnType) (p : Bytes) (n : ℕ) (v : Value)
      → n ≤ length p
      → 2 * n + 16 < 2 ^ 31
      → hex_blob malloc type p n v
        ≡ ok (record {
          val = some (text_block (2 * n + 16) (b'0' ∷ b'x' ∷ hex_texts (take n p)));
          len = pos (2 * n + 2);
          is_hex = 1;
        })
  unfolding hex_blob
  hex_blob_lem type p n v l small =
      let size : u32 (n * 2 + 16) ≡ 2 * n + 16 = omega arith in
      let text = b'0' ∷ b'x' ∷ hex_texts (take n p) in
      let long : length (b'0' ∷ b'x' ∷ hex_texts (take n p)) ≡ 2 * n + 2 =
        omega (arith, length-hex_texts (take n p), length-prefix n p l) in
      rw
        (
          size,
          alloc-eq-ok malloc (2 * n + 16) _ (granted _),
          sprint_as_hex_lem n (2 * n + 16) p l (omega arith),
        )
        (rw (
          strlen_text (b'0' ∷ b'x' ∷ hex_texts (take n p))
              (omega arith, (omega arith, hex_texts-NonNul _)),
          long,
          i32-pos (2 * n + 2) (omega arith),
        ))

module _ (m : Mysql) (laws : Laws m) (malloc : Malloc) (granted : (n : ℕ) → malloc n ≡ true)
    (meta : ℕ) (p : Bytes) (is_partial : Bool) (v : Value) (info : ColInfo) (d : DisplayBlobs)
    (low : 0 < meta) (high : meta ≤ 4) (whole : meta + blob_length meta p ≤ length p)
    (small : 2 * length p + 16 < 2 ^ 31) where
  size_eq : u32 (blob_length meta p + meta) ≡ meta + blob_length meta p
  size_eq = omega arith

  read_eq :
      read_blob_length m meta p ≡ ok (blob_length meta p, meta + blob_length meta p, drop meta p)
  read_eq = rw (read_blob_length_lem m laws meta p low high (omega arith), size_eq)

  -- A BLOB column whose length, of one to four bytes, and content are in the event, where blobs are not
  -- shown: no block is kept, `len` is -1, and the call still takes the length and the content.
  pub blob_hidden_size :
      d.blobs_display ≡ 0
      → log_event_get_value_2 m malloc (some p) blob meta is_partial v info d
        ≡ ok (meta + blob_length meta p, record { val = none; len = negsuc 0; is_hex = 0 })
  unfolding log_event_get_value_2 real_type get_value get_blob show_blob
  blob_hidden_size hide = rw (read_eq, hide)

-- ===== src/Decode/Json.antt =====
-- MYSQL_TYPE_JSON of Rows_log_event_2::log_event_get_value_2
-- (rows_log_event_2/rows_log_event_2.cc). `buf.append` of the code fails only without memory: it is
-- taken to succeed.
use mysql_replication_c.Base.{
  ℕ, zero, suc, ◌+◌, ◌-◌, ◌^◌, ◌%◌, [], ◌∷◌, ◌++◌, Bool, true, false, Option, none, some, ◌==◌,
  if◌then◌else◌, length,
}
use mysql_replication_c.Base.Int.{u32}
use mysql_replication_c.Base.Outcome.{Outcome, ok, err, fault, ◌>>=◌}
use mysql_replication_c.Text.{Bytes}
use mysql_replication_c.Block.{Malloc, alloc, load, deref, memset_zero, snprintf, c_str}
use mysql_replication_c.Row.{
  DisplayBlobs, Value, Message, no_memory_for_value, no_memory_for_partial_json, unknown_json_len,
  invalid_json, invalid_json_operation, invalid_json_field_length, invalid_json_part, exception,
  json,
}
use mysql_replication_c.Mysql.{
  Mysql, Json, json_text, json_error, json_throws, JsonOperation, replace, insert, remove,
}
use mysql_replication_c.Decode.Result.{Decoded, set_text}
use mysql_replication_c.Decode.Bits.{advance}
use mysql_replication_c.Decode.Blobs.{null_blob, hidden}

-- A difference of two size_t.
abbrev pub size_sub : ℕ → ℕ → ℕ
size_sub a b = (a + 2 ^ 64 - b) % 2 ^ 64

-- The word that is appended for an operation.
unfoldable pub operation_name : JsonOperation → Bytes
operation_name replace = b'R' ∷ b'E' ∷ b'P' ∷ b'L' ∷ b'A' ∷ b'C' ∷ b'E' ∷ []
operation_name insert = b'I' ∷ b'N' ∷ b'S' ∷ b'E' ∷ b'R' ∷ b'T' ∷ []
operation_name remove = b'R' ∷ b'E' ∷ b'M' ∷ b'O' ∷ b'V' ∷ b'E' ∷ []

-- Where the loop stands: `p`, `length_x`, and the text in `buf`.
pub record Diff : Type 0 where
  pub p : Bytes
  pub length_x : ℕ
  pub buf : Bytes

-- The text of a whole document, with the messages of the code for what goes wrong in it.
unfoldable pub document_text : Json → Message → Outcome Message Bytes
document_text (json_text s) e = ok s
document_text json_error e = err e
document_text (json_throws s) e = err (exception s)

module _ (m : Mysql) where
  unfoldable pub read_operation : Option JsonOperation → Outcome Message JsonOperation
  read_operation none = err invalid_json_operation
  read_operation (some o) = ok o

  -- net_field_length_checked: the value, with `p` and `length_x` behind it.
  unfoldable pub read_length : Diff → Outcome Message (ℕ × Diff)
  read_length s = elim (m.net_field_length s.p s.length_x) [
    | none ↦ err invalid_json_field_length
    | some (n, size) ↦ do
      q ← advance size s.p
      ok (n, record s { p = q; length_x = size_sub s.length_x size })
  ]

  -- `n` bytes from `p`, with `p` and `length_x` behind them.
  unfoldable pub take_bytes : ℕ → Diff → Outcome Message (Bytes × Diff)
  take_bytes n s = do
    w ← load n s.p
    q ← advance n s.p
    ok (w, record s { p = q; length_x = size_sub s.length_x n })

  -- The value of a replacement or an insertion; a removal has none.
  unfoldable pub diff_value : JsonOperation → Diff → Outcome Message Diff
  diff_value remove s = ok s
  diff_value _ s = do
    r ← read_length s
    w ← take_bytes r.0 r.1
    t ← document_text (m.parse_json w.0) invalid_json_part
    ok (record w.1 { buf = w.1.buf ++ t })

  -- One round of `while ( length_x )`.
  unfoldable pub diff_round : Diff → Outcome Message Diff
  diff_round s = do
    c ← deref s.p
    o ← read_operation (m.json_operation c)
    q ← advance 1 s.p
    r ←
        read_length
          (record s { p = q; length_x = size_sub s.length_x 1; buf = s.buf ++ operation_name o })
    w ← take_bytes r.0 r.1
    t ← diff_value o (record w.1 { buf = w.1.buf ++ w.0 ++ (b':' ∷ []) })
    ok (if t.length_x == 0 then t else record t { buf = t.buf ++ (b'\n' ∷ []) })

  -- The loop. Each round takes a byte of `p` at least, so fuel above its length is enough.
  unfoldable pub diff_loop : ℕ → Diff → Option (Outcome Message Bytes)
  diff_loop zero s = none
  diff_loop (suc f) s =
      if s.length_x == 0
      then some (ok s.buf)
      else elim (diff_round s) [ ok t ↦ diff_loop f t | err e ↦ some (err e) | fault ↦ some fault ]

  unfoldable pub partial_text : Bytes → ℕ → Outcome Message Bytes
  partial_text p n = elim (diff_loop (length p + 1) (record { p = p; length_x = n; buf = [] })) [
    | none ↦ fault
    | some r ↦ r
  ]

module _ (m : Mysql) (malloc : Malloc) where
  -- `malloc( json_str_len + 16 )`, `memset`, and the text up to its first NUL.
  unfoldable pub store_json : Message → Bytes → Value → Outcome Message Value
  store_json e text v = do
    let s = c_str text
    b ← alloc malloc (length s + 16) e
    b' ← memset_zero b (length s + 16)
    b'' ← snprintf b' 0 (length s + 1) s
    ok (record (set_text v b'') { is_hex = 0 })

  unfoldable pub show_json : Bool → Bytes → ℕ → Value → Outcome Message Value
  show_json true p n v = do t ← partial_text m p n; store_json no_memory_for_partial_json t v
  show_json false p n v = do
    w ← load n p
    t ← document_text (m.parse_json w) invalid_json
    store_json (no_memory_for_value json) t v

  unfoldable pub get_json_4 : Option Bytes → Bool → Value → DisplayBlobs → Decoded
  get_json_4 none is_partial v d = ok (0, null_blob d 0 v)
  get_json_4 (some p) is_partial v d = do
    w ← load 4 p
    let n = m.uint4korr w
    q ← advance 4 p
    v' ← if d.blobs_display == 0 then ok (hidden v) else show_json is_partial q n v
    ok (u32 (n + 4), v')

  -- MYSQL_TYPE_JSON: `meta`, the bytes of the length, must be 4.
  unfoldable pub get_json : Option Bytes → ℕ → Bool → Value → DisplayBlobs → Decoded
  get_json ptr meta is_partial v d =
      if meta == 4 then get_json_4 ptr is_partial v d else err (unknown_json_len meta)

-- ===== src/Decode/Sizes.antt =====
-- The bytes that log_event_get_value_2 (rows_log_event_2/rows_log_event_2.cc) takes for a value, under
-- two settings of what is shown.
use mysql_replication_c.Base.{
  ℕ, ◌+◌, ◌≡◌, refl, Bool, true, false, Option, none, some, ◌==◌, if◌then◌else◌,
}
use mysql_replication_c.Base.Int.{u32}
use mysql_replication_c.Base.Outcome.{Outcome, ok, err, fault, ◌>>=◌}
use mysql_replication_c.Text.{Bytes}
use mysql_replication_c.Block.{Malloc, load}
use mysql_replication_c.Row.{
  ColumnType, json, blob, geometry, DisplayBlobs, Value, ColInfo, Message,
}
use mysql_replication_c.Mysql.{Mysql}
use mysql_replication_c.Decode.{real_type, get_value, log_event_get_value_2}
use mysql_replication_c.Decode.Result.{Decoded}
use mysql_replication_c.Decode.Bits.{advance}
use mysql_replication_c.Decode.Blobs.{
  show_blob, read_blob_length, get_blob, get_geometry_4, get_geometry, hidden,
}
use mysql_replication_c.Decode.Json.{show_json, get_json_4, get_json}

-- Where both calls succeed, they take the same bytes.
abbrev pub Agree : Decoded → Decoded → Type 0
Agree (ok r) (ok s) = r.0 ≡ s.0
Agree (ok r) (err e) = Unit {0}
Agree (ok r) fault = Unit {0}
Agree (err e) b = Unit {0}
Agree fault b = Unit {0}

Agree-refl : (a : Decoded) → Agree a a
Agree-refl (ok r) = refl
Agree-refl (err e) = tt
Agree-refl fault = tt

Agree-after :
    {A : Type 0} (o : Outcome Message A) (f g : A → Decoded)
    → ((a : A) → Agree (f a) (g a))
    → Agree (o >>= f) (o >>= g)
Agree-after (ok a) f g h = h a
Agree-after (err e) f g h = tt
Agree-after fault f g h = tt

Agree-shown :
    (n : ℕ) (o k : Outcome Message Value) → Agree (o >>= λ v. ok (n, v)) (k >>= λ v. ok (n, v))
Agree-shown n (ok v) (ok w) = refl
Agree-shown n (ok v) (err e) = tt
Agree-shown n (ok v) fault = tt
Agree-shown n (err e) k = tt
Agree-shown n fault k = tt

Agree-if :
    (b : Bool) (f g x : Decoded) → Agree f g → Agree (if b then f else x) (if b then g else x)
Agree-if true f g x h = h
Agree-if false f g x h = Agree-refl x

module _ (m : Mysql) (malloc : Malloc) (v : Value) (d e : DisplayBlobs) where
  blob-Agree :
      (ptr : Option Bytes) (meta : ℕ)
      → Agree (get_blob m malloc ptr meta v d) (get_blob m malloc ptr meta v e)
  unfolding get_blob
  blob-Agree none meta = refl
  blob-Agree (some p) meta = Agree-after (read_blob_length m meta p) _ _ (λ l.
      Agree-shown l.1 (show_blob malloc blob d.blobs_display d.blob_as_hex l.2 l.0 v)
        (show_blob malloc blob e.blobs_display e.blob_as_hex l.2 l.0 v))

  geometry_4-Agree :
      (ptr : Option Bytes)
      → Agree (get_geometry_4 m malloc ptr v d) (get_geometry_4 m malloc ptr v e)
  unfolding get_geometry_4
  geometry_4-Agree none = refl
  geometry_4-Agree (some p) = Agree-after (load 4 p) _ _ (λ w. Agree-after (advance 4 p) _ _ (λ q.
      Agree-shown (u32 (m.uint4korr w + 4))
        (show_blob malloc geometry d.blobs_display d.geometry_as_hex q (m.uint4korr w) v)
        (show_blob malloc geometry e.blobs_display e.geometry_as_hex q (m.uint4korr w) v)))

  geometry-Agree :
      (ptr : Option Bytes) (meta : ℕ)
      → Agree (get_geometry m malloc ptr meta v d) (get_geometry m malloc ptr meta v e)
  unfolding get_geometry
  geometry-Agree ptr meta = Agree-if (meta == 4) _ _ _ (geometry_4-Agree ptr)

  json_4-Agree :
      (ptr : Option Bytes) (is_partial : Bool)
      → Agree (get_json_4 m malloc ptr is_partial v d) (get_json_4 m malloc ptr is_partial v e)
  unfolding get_json_4
  json_4-Agree none is_partial = refl
  json_4-Agree (some p) is_partial = Agree-after (load 4 p) _ _ (λ w.
      Agree-after (advance 4 p) _ _ (λ q.
        Agree-shown (u32 (m.uint4korr w + 4))
          (if d.blobs_display == 0
            then ok (hidden v)
            else show_json m malloc is_partial q (m.uint4korr w) v)
          (if e.blobs_display == 0
            then ok (hidden v)
            else show_json m malloc is_partial q (m.uint4korr w) v)))

  json-Agree :
      (ptr : Option Bytes) (meta : ℕ) (is_partial : Bool)
      → Agree
          (get_json m malloc ptr meta is_partial v d)
          (get_json m malloc ptr meta is_partial v e)
  unfolding get_json
  json-Agree ptr meta is_partial = Agree-if (meta == 4) _ _ _ (json_4-Agree ptr is_partial)

  value-Agree :
      (type : ColumnType) (length : ℕ) (ptr : Option Bytes) (meta : ℕ) (is_partial : Bool)
      (info : ColInfo)
      → Agree
          (get_value m malloc type length ptr meta is_partial v info d)
          (get_value m malloc type length ptr meta is_partial v info e)
  unfolding get_value
  value-Agree blob length ptr meta is_partial info = blob-Agree ptr meta
  value-Agree geometry length ptr meta is_partial info = geometry-Agree ptr meta
  value-Agree json length ptr meta is_partial info = json-Agree ptr meta is_partial
  value-Agree type length ptr meta is_partial info =
      Agree-refl (get_value m malloc type length ptr meta is_partial v info d)

-- For every column type, every event and every heap: where a value is decoded under two settings of
-- what is shown of blobs, it takes the same bytes of the event.
pub display_size-Agree :
    (m : Mysql) (malloc : Malloc) (ptr : Option Bytes) (type : ColumnType) (meta : ℕ)
    (is_partial : Bool) (v : Value) (info : ColInfo) (d e : DisplayBlobs)
    → Agree
        (log_event_get_value_2 m malloc ptr type meta is_partial v info d)
        (log_event_get_value_2 m malloc ptr type meta is_partial v info e)
unfolding log_event_get_value_2
display_size-Agree m malloc ptr type meta is_partial v info d e =
    let r = real_type m type meta in value-Agree m malloc v d e r.0 r.1 ptr meta is_partial info

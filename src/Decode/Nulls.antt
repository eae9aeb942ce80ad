-- ===== src/Decode/Nulls.antt =====
-- A column that is NULL (rows_log_event_2/rows_log_event_2.cc): the code gives a null pointer to
-- log_event_get_value_2.
use mysql_replication_c.Base.{ℕ, ◌≡◌, refl, Bool, true, false, none, ◌==◌, ◌%◌, if◌then◌else◌}
use mysql_replication_c.Base.Outcome.{Outcome, Safe}
use mysql_replication_c.Base.Int.{ℤ}
use mysql_replication_c.Block.{Malloc}
use mysql_replication_c.Row.{
  Message, ColumnType, tiny, short, long, float, double, timestamp, longlong, int24, time, datetime,
  year, newdate, varchar, bit, timestamp2, datetime2, time2, json, newdecimal, enum, set, blob,
  var_string, string, geometry, other, DisplayBlobs, Value, ColInfo,
}
use mysql_replication_c.Mysql.{Mysql}
use mysql_replication_c.Decode.{real_type, get_value, log_event_get_value_2}
use mysql_replication_c.Decode.Result.{Decoded}
use mysql_replication_c.Decode.Numbers.{
  get_long, get_tiny, get_short, get_int24, get_longlong, get_newdecimal, get_float, get_double,
}
use mysql_replication_c.Decode.Times.{
  get_timestamp, get_timestamp2, get_datetime, get_datetime2, get_time, get_time2, get_newdate,
  get_year,
}
use mysql_replication_c.Decode.Strings.{
  get_bit, get_enum_1, get_enum_2, get_enum, get_set, get_varchar, get_string,
}
use mysql_replication_c.Decode.Blobs.{null_blob, get_blob, get_geometry_4, get_geometry}
use mysql_replication_c.Decode.Json.{get_json_4, get_json}

-- No bytes are taken, there is no text, and nothing is read out of bounds; an error is one of the
-- code's own.
abbrev pub IsNull : Decoded → Type 0
IsNull = Safe (λ r. (r.0 ≡ 0) × (r.1.val ≡ none))

Safe-if :
    {A : Type 0} (P : A → Type 0) (b : Bool) (x y : Outcome Message A)
    → Safe P x
    → Safe P y
    → Safe P (if b then x else y)
Safe-if P true x y p q = p
Safe-if P false x y p q = q

-- Whatever holds of the cell as it is, and of the cell without a text.
module _ (m : Mysql) (malloc : Malloc) (v : Value) (P : Value → Type 0) (same : P v)
    (cleared : (len : ℤ) (hex : ℕ) → P (record { val = none; len = len; is_hex = hex })) where
  abbrev pub Kept : Decoded → Type 0
  Kept = Safe (λ r. (r.0 ≡ 0) × P r.1)

  null_enum : (meta : ℕ) → Kept (get_enum m malloc none meta v)
  unfolding get_enum get_enum_1 get_enum_2
  null_enum meta =
      Safe-if (λ r. (r.0 ≡ 0) × P r.1) (meta % 256 == 1) _ _ (refl, same)
        (Safe-if (λ r. (r.0 ≡ 0) × P r.1) (meta % 256 == 2) _ _ (refl, same) tt)

  pub null_value :
      (type : ColumnType) (length meta : ℕ) (is_partial : Bool) (info : ColInfo) (d : DisplayBlobs)
      → Kept (get_value m malloc type length none meta is_partial v info d)
  unfolding get_value get_long get_tiny get_short get_int24 get_longlong get_newdecimal get_float
      get_double get_timestamp get_timestamp2 get_datetime get_datetime2 get_time get_time2
      get_newdate get_year get_bit get_set get_varchar get_string get_blob get_geometry
      get_geometry_4 get_json get_json_4 null_blob
  null_value long length meta is_partial info d = (refl, same)
  null_value tiny length meta is_partial info d = (refl, same)
  null_value short length meta is_partial info d = (refl, same)
  null_value int24 length meta is_partial info d = (refl, same)
  null_value longlong length meta is_partial info d = (refl, same)
  null_value newdecimal length meta is_partial info d = (refl, same)
  null_value float length meta is_partial info d = (refl, same)
  null_value double length meta is_partial info d = (refl, same)
  null_value bit length meta is_partial info d = (refl, same)
  null_value timestamp length meta is_partial info d = (refl, same)
  null_value timestamp2 length meta is_partial info d = (refl, same)
  null_value datetime length meta is_partial info d = (refl, same)
  null_value datetime2 length meta is_partial info d = (refl, same)
  null_value time length meta is_partial info d = (refl, same)
  null_value time2 length meta is_partial info d = (refl, same)
  null_value newdate length meta is_partial info d = (refl, same)
  null_value year length meta is_partial info d = (refl, same)
  null_value enum length meta is_partial info d = null_enum meta
  null_value set length meta is_partial info d = (refl, same)
  null_value blob length meta is_partial info d = (refl, cleared _ _)
  null_value varchar length meta is_partial info d = (refl, same)
  null_value var_string length meta is_partial info d = (refl, same)
  null_value string length meta is_partial info d = (refl, same)
  null_value json length meta is_partial info d =
      Safe-if (λ r. (r.0 ≡ 0) × P r.1) (meta == 4) _ _ (refl, cleared _ _) tt
  null_value geometry length meta is_partial info d =
      Safe-if (λ r. (r.0 ≡ 0) × P r.1) (meta == 4) _ _ (refl, cleared _ _) tt
  null_value (other n) length meta is_partial info d = tt

-- A NULL of any column type, in a cell without a text: nothing is read out of bounds, and where the
-- call succeeds it takes no bytes and leaves the cell without a text, whatever is to be shown and
-- whatever the heap grants.
pub log_event_get_value_2-IsNull :
    (m : Mysql) (malloc : Malloc) (type : ColumnType) (meta : ℕ) (is_partial : Bool) (v : Value)
    (info : ColInfo) (d : DisplayBlobs)
    → v.val ≡ none
    → IsNull (log_event_get_value_2 m malloc none type meta is_partial v info d)
unfolding log_event_get_value_2
log_event_get_value_2-IsNull m malloc type meta is_partial v info d empty =
    let r = real_type m type meta in
    null_value m malloc v (λ w. w.val ≡ none) empty (λ len hex. refl) r.0 r.1 meta is_partial info d

-- In any cell, a NULL takes no bytes.
pub log_event_get_value_2-Null :
    (m : Mysql) (malloc : Malloc) (type : ColumnType) (meta : ℕ) (is_partial : Bool) (v : Value)
    (info : ColInfo) (d : DisplayBlobs)
    → Safe
        (λ r. (r.0 ≡ 0) × Unit {0})
        (log_event_get_value_2 m malloc none type meta is_partial v info d)
unfolding log_event_get_value_2
log_event_get_value_2-Null m malloc type meta is_partial v info d =
    let r = real_type m type meta in
    null_value m malloc v (λ w. Unit {0}) tt (λ len hex. tt) r.0 r.1 meta is_partial info d

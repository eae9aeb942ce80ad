-- ===== src/Decode/IntegerTypes.antt =====
-- Each integer type of log_event_get_value_2 (rows_log_event_2/rows_log_event_2.cc).
use native.Mathlib.Nat.{pow-suc}
use mysql_replication_c.Base.{
  ℕ, suc, ◌+◌, ◌*◌, ◌^◌, ◌≤◌, ◌<◌, ◌≡◌, refl, [], ◌∷◌, Bool, true, false, some, if◌then◌else◌,
  length, take, arith, subst, ap, length-take,
}
use mysql_replication_c.Base.Int.{ℤ, pos, negsuc, signed, i32-pos}
use mysql_replication_c.Base.Outcome.{ok}
use mysql_replication_c.Text.{Bytes, unsigned_text, int_text}
use mysql_replication_c.Text.Width.{NonNul, length-unsigned_text, int_text-NonNul}
use mysql_replication_c.Block.{Malloc, deref, snprintf}
use mysql_replication_c.Block.Strlen.{snprintf_fresh}
use mysql_replication_c.Block.Steps.{fresh, text_block, alloc-eq-ok, load-eq-ok, strlen_text}
use mysql_replication_c.Row.{Value, Message, ColInfo}
use mysql_replication_c.Mysql.{Mysql, Laws, little_endian, AllBytes}
use mysql_replication_c.Decode.Result.{set_text}
use mysql_replication_c.Decode.Numbers.{get_long, get_tiny, get_short, get_int24, get_longlong}

pub little_endian-lt : (p : Bytes) → AllBytes p → little_endian p < 256 ^ length p
little_endian-lt [] h = omega arith
little_endian-lt (c ∷ p) h = omega (arith, h.0, little_endian-lt p h.1, pow-suc 256 (length p))

-- The integer that a column of `w` bytes holds.
abbrev pub column_int : Bool → ℕ → Bytes → ℤ
column_int is_unsigned w p =
    if is_unsigned then pos (little_endian p) else signed (8 * w) (little_endian p)

-- The value that shows a text in a block of `cap` bytes.
abbrev pub text_value : ℕ → Bytes → Value → Value
text_value cap s v = record v { val = some (text_block cap s); len = pos (length s) }

pub set_text_lem :
    (cap : ℕ) (s : Bytes) (v : Value)
    → NonNul s
    → length s < 2 ^ 31
    → set_text v (text_block cap s) ≡ text_value cap s v
set_text_lem cap s v n h = rw (strlen_text s n, i32-pos (length s) h)

abbrev pub magnitude : ℤ → ℕ
magnitude (pos n) = n
magnitude (negsuc n) = suc n

pub length-int_text : (k : ℕ) (z : ℤ) → magnitude z < 10 ^ suc k → length (int_text z) ≤ suc (suc k)
unfolding int_text
length-int_text k (pos n) h = omega (arith, length-unsigned_text k n h)
length-int_text k (negsuc n) h = omega (arith, length-unsigned_text k (suc n) h)

pub magnitude-column_int :
    (u : Bool) (w : ℕ) (p : Bytes) (top : ℕ)
    → little_endian p < top
    → 2 ^ (8 * w) ≤ top
    → magnitude (column_int u w p) ≤ top
magnitude-column_int u w p top h q = ground arith

-- The value of an integer column of `w` bytes fits a block for `k + 2` characters and a NUL.
module _ (w k cap : ℕ) (small : 2 ^ (8 * w) ≤ 256 ^ w) (fits : 256 ^ w < 10 ^ suc k)
    (room : k + 2 < cap) (word : k + 2 < 2 ^ 31) where
  pub print_column :
      (u : Bool) (p : Bytes) (v : Value) (text : Bytes)
      → length p ≡ w
      → AllBytes p
      → text ≡ int_text (column_int u w p)
      → (snprintf {E = Message} (fresh cap) 0 cap text
          ≡ ok (text_block cap (int_text (column_int u w p))))
        × (set_text v (text_block cap (int_text (column_int u w p)))
            ≡ text_value cap (int_text (column_int u w p)) v)
  print_column u p v text l b e =
      let below : little_endian p < 256 ^ w =
        subst (λ n. little_endian p < 256 ^ n) l (little_endian-lt p b) in
      let bound : length (int_text (column_int u w p)) ≤ suc (suc k) =
        length-int_text k (column_int u w p)
          (omega (arith, magnitude-column_int u w p (256 ^ w) below small)) in
      (
        rw e (snprintf_fresh cap (int_text (column_int u w p)) (omega arith)),
        set_text_lem cap (int_text (column_int u w p)) v (int_text-NonNul _) (omega arith),
      )

pub unsigned_or_signed :
    (u : Bool) (n : ℕ) (z : ℤ) (w : ℕ) (p : Bytes)
    → n ≡ little_endian p
    → z ≡ signed (8 * w) (little_endian p)
    → (if u then unsigned_text n else int_text z) ≡ int_text (column_int u w p)
unfolding int_text
unsigned_or_signed true n z w p e f = rw e
unsigned_or_signed false n z w p e f = rw f

pub length-prefix : (n : ℕ) (p : Bytes) → n ≤ length p → length (take n p) ≡ n
length-prefix n p h = omega (arith, length-take n p)

module _ (m : Mysql) (laws : Laws m) (malloc : Malloc) where
  pub get_long_lem :
      (p : Bytes) (v : Value) (info : ColInfo)
      → malloc 16 ≡ true
      → 4 ≤ length p
      → AllBytes (take 4 p)
      → get_long m malloc (some p) v info
        ≡ ok (4, text_value 16 (int_text (column_int info.is_unsigned 4 (take 4 p))) v)
  unfolding get_long
  get_long_lem p v info g h b =
      let l = length-prefix 4 p h in
      let printed =
        print_column 4 9 16 (omega arith) (omega arith) (omega arith) (omega arith) info.is_unsigned
          (take 4 p) v _ l b
          (unsigned_or_signed info.is_unsigned _ _ 4 (take 4 p) (laws.uint4_lem _ l)
            (laws.sint4_lem _ l)) in
      rw (alloc-eq-ok malloc 16 _ g, load-eq-ok 4 p h, printed.0) (rw printed.1)

  pub get_short_lem :
      (p : Bytes) (v : Value) (info : ColInfo)
      → malloc 16 ≡ true
      → 2 ≤ length p
      → AllBytes (take 2 p)
      → get_short m malloc (some p) v info
        ≡ ok (2, text_value 16 (int_text (column_int info.is_unsigned 2 (take 2 p))) v)
  unfolding get_short
  get_short_lem p v info g h b =
      let l = length-prefix 2 p h in
      let printed =
        print_column 2 9 16 (omega arith) (omega arith) (omega arith) (omega arith) info.is_unsigned
          (take 2 p) v _ l b
          (unsigned_or_signed info.is_unsigned _ _ 2 (take 2 p) (laws.uint2_lem _ l)
            (laws.sint2_lem _ l)) in
      rw (alloc-eq-ok malloc 16 _ g, load-eq-ok 2 p h, printed.0) (rw printed.1)

  pub get_int24_lem :
      (p : Bytes) (v : Value) (info : ColInfo)
      → malloc 16 ≡ true
      → 3 ≤ length p
      → AllBytes (take 3 p)
      → get_int24 m malloc (some p) v info
        ≡ ok (3, text_value 16 (int_text (column_int info.is_unsigned 3 (take 3 p))) v)
  unfolding get_int24
  get_int24_lem p v info g h b =
      let l = length-prefix 3 p h in
      let printed =
        print_column 3 9 16 (omega arith) (omega arith) (omega arith) (omega arith) info.is_unsigned
          (take 3 p) v _ l b
          (unsigned_or_signed info.is_unsigned _ _ 3 (take 3 p) (laws.uint3_lem _ l)
            (laws.sint3_lem _ l)) in
      rw (alloc-eq-ok malloc 16 _ g, load-eq-ok 3 p h, printed.0) (rw printed.1)

  pub get_longlong_lem :
      (p : Bytes) (v : Value) (info : ColInfo)
      → malloc 32 ≡ true
      → 8 ≤ length p
      → AllBytes (take 8 p)
      → get_longlong m malloc (some p) v info
        ≡ ok (8, text_value 32 (int_text (column_int info.is_unsigned 8 (take 8 p))) v)
  unfolding get_longlong
  get_longlong_lem p v info g h b =
      let l = length-prefix 8 p h in
      let printed =
        print_column 8 19 32 (omega arith) (omega arith) (omega arith) (omega arith)
          info.is_unsigned (take 8 p) v _ l b
          (unsigned_or_signed info.is_unsigned _ _ 8 (take 8 p) (laws.uint8_lem _ l)
            (laws.sint8_lem _ l)) in
      rw (alloc-eq-ok malloc 32 _ g, load-eq-ok 8 p h, printed.0) (rw printed.1)

  pub get_tiny_lem :
      (p : Bytes) (v : Value) (info : ColInfo)
      → malloc 16 ≡ true
      → 1 ≤ length p
      → AllBytes (take 1 p)
      → get_tiny m malloc (some p) v info
        ≡ ok (1, text_value 16 (int_text (column_int info.is_unsigned 1 (take 1 p))) v)
  unfolding get_tiny deref
  get_tiny_lem [] v info g h b = absurd (omega arith)
  get_tiny_lem (c ∷ p) v info g h b =
      let e : c ≡ little_endian (c ∷ []) = omega arith in
      let printed =
        print_column 1 9 16 (omega arith) (omega arith) (omega arith) (omega arith) info.is_unsigned
          (c ∷ []) v _ refl b
          (unsigned_or_signed info.is_unsigned c (signed 8 c) 1 (c ∷ []) e (ap (signed 8) e)) in
      rw (alloc-eq-ok malloc 16 _ g, printed.0) (rw printed.1)

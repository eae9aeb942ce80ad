-- ===== src/Mysql/Toy.antt =====
-- A server library for the examples: little-endian words, and small stand-ins for the rest.
use mysql_replication_c.Base.{
  ℕ, ◌+◌, ◌/◌, ◌%◌, ◌^◌, Bool, false, get_elem?, refl, [], ◌∷◌, Option, none, some, ◌==◌,
  if◌then◌else◌,
}
use mysql_replication_c.Base.Int.{signed}
use mysql_replication_c.Text.{Bytes}
use mysql_replication_c.Row.{ColumnType, enum, set, string, other}
use mysql_replication_c.Mysql.{
  Mysql, Laws, Json, json_text, json_error, JsonOperation, replace, insert, remove, little_endian,
}

abbrev toy_code_type : ℕ → ColumnType
toy_code_type c =
    if c == 247 then enum else if c == 248 then set else if c == 254 then string else other c

abbrev toy_operation : ℕ → Option JsonOperation
toy_operation c =
    if c == 0
    then some replace
    else if c == 1
    then some insert
    else if c == 2
    then some remove
    else none

abbrev toy_parse : Bytes → Json
toy_parse [] = json_error
toy_parse (c ∷ p) = json_text (c ∷ p)

abbrev toy_net_field_length : Bytes → ℕ → Option (ℕ × ℕ)
toy_net_field_length [] n = none
toy_net_field_length (c ∷ p) n = if n == 0 then none else some (c, 1)

abbrev toy_read_bit : Bytes → ℕ → Bool
toy_read_bit p k = elim (get_elem? p (k / 8)) [ none ↦ false | some c ↦ c / 2 ^ (k % 8) % 2 == 1 ]

abbrev pub toy : Mysql
toy = record {
  uint2korr = little_endian;
  uint3korr = little_endian;
  uint4korr = little_endian;
  uint8korr = little_endian;
  sint2korr = λ p. signed 16 (little_endian p);
  sint3korr = λ p. signed 24 (little_endian p);
  sint4korr = λ p. signed 32 (little_endian p);
  sint8korr = λ p. signed 64 (little_endian p);
  code_type = toy_code_type;
  decimal_size = λ precision decimals. (precision + 1) / 2;
  decimal_text = λ p precision decimals. b'0' ∷ [];
  float_text = λ p. b'1' ∷ [];
  double_text = λ p. b'2' ∷ [];
  timestamp_length = λ meta. 4 + (meta + 1) / 2;
  timestamp_text = λ p meta. b'3' ∷ [];
  datetime_length = λ meta. 5 + (meta + 1) / 2;
  datetime_text = λ p meta. b'4' ∷ [];
  time_length = λ meta. 3 + (meta + 1) / 2;
  time_text = λ p meta. b'5' ∷ [];
  parse_json = toy_parse;
  json_operation = toy_operation;
  net_field_length = toy_net_field_length;
  read_bit = toy_read_bit;
  has_partial_json_updates = λ options. options % 2 == 1;
  extra_row_info_header_length = 2;
}

pub toy-Laws : Laws toy
toy-Laws = record {
  uint2_lem = λ p h. refl;
  uint3_lem = λ p h. refl;
  uint4_lem = λ p h. refl;
  uint8_lem = λ p h. refl;
  sint2_lem = λ p h. refl;
  sint3_lem = λ p h. refl;
  sint4_lem = λ p h. refl;
  sint8_lem = λ p h. refl;
}

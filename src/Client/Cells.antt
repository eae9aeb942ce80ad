-- ===== src/Client/Cells.antt =====
-- The line that the example client (example/C/rpl_test_2.c) prints for a cell.

use mysql_replication_c.Base.{
  some_inj, ℕ, zero, suc, ◌≡◌, refl, subst, true, List, [], ◌∷◌, Option, none, some, Bool-cases,
  inl, inr, false, All, ◌==◌, get_elem?, arith,
}
use mysql_replication_c.Base.Outcome.{ok, ◌>>=◌}
use mysql_replication_c.Text.{Bytes}
use mysql_replication_c.Base.Int.{ℤ, pos, negsuc}
use mysql_replication_c.Row.{ColumnType, Value}
use mysql_replication_c.Decode.Ending.{HasNul}
use mysql_replication_c.Decode.TextSteps.{IsEnding, IsText}
use mysql_replication_c.Block.{Block}
use mysql_replication_c.Client.{
  Line, cell_line, value_line, null_line, absent_line, c_string, Output,
}

-- A C string is read up to its NUL.
c_string_lem : (s : Bytes) → HasNul s → (t : Bytes) × (c_string s ≡ ok t)
unfolding c_string
c_string_lem [] h = absurd (let no : false ≡ true = h in cc)
c_string_lem (c ∷ s) h = elim (Bool-cases (c == 0)) [
  | inl a ↦ ([], rw a refl)
  | inr a ↦ let rest = c_string_lem s (behind h a) in (c ∷ rest.0, rw (a, rest.1) refl)
]
  where
    behind : HasNul (c ∷ s) → (c == 0) ≡ false → HasNul s
    behind (inl e) a = absurd (ground (arith, e, a))
    behind (inr k) a = k

pub cell_line_lem :
    (name : Bytes) (type : ColumnType) (v : Value)
    → IsText v
    → (line : Line) × (cell_line name type v ≡ ok line)
unfolding cell_line
cell_line_lem name type v h = with_len v.len v.val h
  where
    with_len :
        (n : ℤ) (val : Option Block)
        → IsEnding val
        → (line : Line) × (elim n as (λ x. Output Line) [
          | negsuc n ↦ ok (absent_line name type)
          | pos n ↦ elim val as (λ x. Output Line) [
            | none ↦ ok (null_line name type)
            | some b ↦ (c_string b.bytes >>= λ text. ok (value_line name type text))
          ]
        ]
            ≡ ok line)
    with_len (negsuc n) val h = (absent_line name type, refl)
    with_len (pos n) none h = (null_line name type, refl)
    with_len (pos n) (some b) h =
        let text = c_string_lem b.bytes h in (value_line name type text.0, rw text.1 refl)

pub text_of :
    (vs : List Value) (i : ℕ) (v : Value) → All IsText vs → get_elem? vs i ≡ some v → IsText v
text_of [] i v h e = absurd (let no : none ≡ some v = e in cc)
text_of (u ∷ vs) zero v h e = subst IsText (some_inj e) h.0
text_of (u ∷ vs) (suc i) v h e = text_of vs i v h.1 e

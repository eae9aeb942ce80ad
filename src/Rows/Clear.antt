-- ===== src/Rows/Clear.antt =====
-- repl_log_x_rows_clear (mysql_rpl_listener_2/mysql_rpl_listener_2.cc): the blocks of a structure of
-- rows are freed.
use mysql_replication_c.Base.{
  ℕ, zero, suc, ◌+◌, ◌*◌, ◌≤◌, ◌<◌, ◌^◌, ◌≡◌, refl, ap, ◌∙◌, subst, true, List, [], ◌∷◌, ◌++◌,
  Option, none, some, ◌⊎◌, inl, inr, length, get_elem?, take, take_all, drop, arith,
}
use mysql_replication_c.Base.Int.{u32}
use mysql_replication_c.Base.Outcome.{Outcome, ok, ◌>>=◌, or_fault, Holds}
use mysql_replication_c.Block.{Block, Malloc}
use mysql_replication_c.Row.{Value, Message}
use mysql_replication_c.Mysql.{Mysql}
use mysql_replication_c.Rows.{Rows, RowsEvent}
use mysql_replication_c.Rows.Memory.{cells}
use mysql_replication_c.Rows.Loop.{TblInfo, TableMap, get_rows}
use mysql_replication_c.Rows.Rounds.{both_images}
use mysql_replication_c.Rows.Filled.{Filled, get_rows-Filled}

-- `if ( val != NULL ) free( val )`
abbrev pub freed : Option Block → List Block → List Block
freed none bs = bs
freed (some b) bs = b ∷ bs

-- The loop over the cells from index `i` on, `n` rounds: the texts that are freed.
unfoldable pub free_texts : ℕ → ℕ → List Value → Outcome Message (List Block)
free_texts zero i vs = ok []
free_texts (suc n) i vs = do
  v ← or_fault (get_elem? vs i)
  bs ← free_texts n (suc i) vs
  ok (freed v.val bs)

-- An array of cells, if there is one: `rows_count * col_count` in 32 bits.
unfoldable pub free_cells : ℕ → Option (List Value) → Outcome Message (List Block)
unfolding free_texts
free_cells n none = ok []
free_cells n (some vs) = free_texts n 0 vs

-- The structure after `memset`, but for its type.
abbrev pub cleared : Rows → Rows
cleared x = record x {
  col_count = 0;
  rows_count = 0;
  rows = none;
  rows_after = none;
  rows_l2 = none;
  rows_after_l2 = none;
}

-- The texts that are freed, in their order, and the structure.
unfoldable pub repl_log_x_rows_clear : Rows → Outcome Message (List Block × Rows)
repl_log_x_rows_clear x = do
  before ← free_cells (u32 (x.rows_count * x.col_count)) x.rows_l2
  after ← free_cells (u32 (x.rows_count * x.col_count)) x.rows_after_l2
  ok (before ++ after, cleared x)

-- The texts of cells
abbrev pub texts : List Value → List Block
texts [] = []
texts (v ∷ vs) = freed v.val (texts vs)

get-drop :
    (vs : List Value) (i : ℕ)
    → i < length vs
    → (v : Value) × (get_elem? vs i ≡ some v) × (drop i vs ≡ v ∷ drop (suc i) vs)
get-drop [] i h = absurd (omega (arith, h))
get-drop (v ∷ vs) zero h = (v, refl, refl)
get-drop (v ∷ vs) (suc i) h = get-drop vs i (omega (arith, h))

free_texts_lem :
    (n i : ℕ) (vs : List Value)
    → i + n ≤ length vs
    → free_texts n i vs ≡ ok (texts (take n (drop i vs)))
unfolding free_texts
free_texts_lem zero i vs h = refl
free_texts_lem (suc n) i vs h =
    let here = get-drop vs i (omega (arith, h)) in
    rw (here.1, free_texts_lem n (suc i) vs (omega (arith, h)), here.2) refl

free_cells_lem :
    (n : ℕ) (vs : Option (List Value))
    → (n ≤ length (cells vs)) ⊎ (vs ≡ none)
    → free_cells n vs ≡ ok (texts (take n (cells vs)))
unfolding free_cells
free_cells_lem zero none h = refl
free_cells_lem (suc n) none h = refl
free_cells_lem n (some vs) (inl h) = free_texts_lem n 0 vs (omega (arith, h))
free_cells_lem n (some vs) (inr h) = absurd (let no : some vs ≡ none = h in cc)

all_cells :
    (n : ℕ) (vs : Option (List Value))
    → (n ≡ length (cells vs)) ⊎ (vs ≡ none)
    → free_cells n vs ≡ ok (texts (cells vs))
all_cells n vs (inl h) =
    free_cells_lem n vs (inl (omega (arith, h)))
    ∙ ap (λ us. ok (texts us)) (take_all n (cells vs) (omega (arith, h)))
all_cells n vs (inr h) =
    rw h (free_cells_lem n none (inr refl) ∙ ap (λ us. ok (texts us)) (take_all n [] (omega arith)))

-- The structure that get_rows fills with an event of less than 4 GB, from a structure without rows,
-- of an update or without a second array, and with less than 4 GB of cells: clearing it frees the
-- text of every cell, in the order of the cells and each once, and reads nothing out of bounds.
pub get_rows-cleared :
    (m : Mysql) (heap : ℕ → Malloc) (ev : RowsEvent) (map : Option TableMap) (x y : Rows)
    (info : TblInfo)
    → length ev.rows_buf < 2 ^ 32
    → x.rows_count ≡ 0
    → x.rows_l2 ≡ none
    → x.rows_after_l2 ≡ none
    → get_rows m heap ev map x info ≡ ok y
    → (both_images ev ≡ true) ⊎ (y.rows_after_l2 ≡ none)
    → y.rows_count * y.col_count < 2 ^ 32
    → repl_log_x_rows_clear y
      ≡ ok (texts (cells y.rows_l2) ++ texts (cells y.rows_after_l2), cleared y)
unfolding repl_log_x_rows_clear
get_rows-cleared m heap ev map x y info small none_yet l2 after got second fits =
    let filled : Filled (both_images ev) x.col_count y =
      subst (Holds (Filled (both_images ev) x.col_count)) got
        (get_rows-Filled m heap ev map x info small none_yet l2 after) in
    let n = u32 (y.rows_count * y.col_count) in
    let count : n ≡ y.rows_count * y.col_count = omega (arith, fits) in
    let first : free_cells n y.rows_l2 ≡ ok (texts (cells y.rows_l2)) =
      all_cells n y.rows_l2 (inl (omega (arith, filled.0, count))) in
    let then_after : free_cells n y.rows_after_l2 ≡ ok (texts (cells y.rows_after_l2)) =
      all_cells n y.rows_after_l2 (elim second [
        | inl both ↦ inl (omega (arith, ((filled.3) both).0, count))
        | inr e ↦ inr e
      ]) in
    rw (first, then_after) refl

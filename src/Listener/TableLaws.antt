-- ===== src/Listener/TableLaws.antt =====
-- The lookup of a listened table, and a write to its columns.
use mysql_replication_c.Base.{
  ℕ, zero, suc, ◌+◌, ◌≡◌, refl, ap, sym, Bool, true, false, ◌&&◌, List, [], ◌∷◌, Option, none, some,
  ◌==◌, ◌∙◌, some_inj, ==_iff, Bool-cases, if◌then◌else◌, ◌⊎◌, inl, inr, get_elem?, set, map, arith,
}
use mysql_replication_c.Text.{Bytes}
use mysql_replication_c.Listener.{ListeningTable}
use mysql_replication_c.Listener.Tables.{str_eq, find_table_from, find_table}
use mysql_replication_c.Listener.Spec.{table_name, Among, here, there}

pub &&-split : (a b : Bool) → (a && b) ≡ true → (a ≡ true) × (b ≡ true)
&&-split true b h = (refl, h)
&&-split false b h = cc

pub str_eq-true : (a b : Bytes) → str_eq a b ≡ true → a ≡ b
unfolding str_eq
str_eq-true [] [] h = refl
str_eq-true [] (d ∷ b) h = cc
str_eq-true (c ∷ a) [] h = cc
str_eq-true (c ∷ a) (d ∷ b) h =
    let both = &&-split (c == d) (str_eq a b) h in
    let first : c ≡ d = (==_iff c d).0 both.0 in let rest : a ≡ b = str_eq-true a b both.1 in cc

pub str_eq_refl : (a : Bytes) → str_eq a a ≡ true
unfolding str_eq
str_eq_refl [] = refl
str_eq_refl (c ∷ a) = rw ((==_iff c c).1 refl) (str_eq_refl a)

module _ (db tbl : Bytes) where
  abbrev Fits : List ListeningTable → ℕ → Type 0
  Fits ts i = (t : ListeningTable) → get_elem? ts i ≡ some t → (db ≡ t.db_name) × (tbl ≡ t.tbl_name)

  find_table_from_lem :
      (q : ℕ) (ts : List ListeningTable) (found : Option ℕ) (p : ℕ)
      → find_table_from q db tbl ts found ≡ some p
      → (found ≡ some p) ⊎ ((i : ℕ) × (p ≡ q + i) × Fits ts i)
  unfolding find_table_from
  find_table_from_lem q [] found p h = inl h
  find_table_from_lem q (t ∷ ts) found p h =
      let test = str_eq db t.db_name && str_eq tbl t.tbl_name in
      elim (find_table_from_lem (suc q) ts (if test then some q else found) p h) [
        | inl e ↦ elim (Bool-cases test) [
          | inl hit ↦
              let both = &&-split (str_eq db t.db_name) (str_eq tbl t.tbl_name) hit in
              let at : some q ≡ some p = rw hit at e in
              inr (
                0,
                omega (arith, some_inj at),
                λ u g. (
                  str_eq-true db t.db_name both.0 ∙ ap (λ w. w.db_name) (some_inj g),
                  str_eq-true tbl t.tbl_name both.1 ∙ ap (λ w. w.tbl_name) (some_inj g),
                ),
              )
          | inr miss ↦ inl (rw miss at e)
        ]
        | inr (i, e, fits) ↦ inr (suc i, omega (arith, e), fits)
      ]

pub find_table_lem :
    (db tbl : Bytes) (ts : List ListeningTable) (p : ℕ)
    → find_table db tbl ts ≡ some p
    → (t : ListeningTable) → get_elem? ts p ≡ some t
    → (db ≡ t.db_name) × (tbl ≡ t.tbl_name)
unfolding find_table
find_table_lem db tbl ts p h t g = elim (find_table_from_lem db tbl 0 ts none p h) [
  | inl e ↦ cc
  | inr (i, e, fits) ↦ let at : p ≡ i = omega (arith, e) in fits t (rw at at g)
]

-- A table with new columns keeps the names.
pub map-set :
    (ts : List ListeningTable) (q : ℕ) (t s : ListeningTable)
    → get_elem? ts q ≡ some t
    → table_name s ≡ table_name t
    → map table_name (set ts q s) ≡ map table_name ts
map-set [] q t s g e = refl
map-set (u ∷ ts) zero t s g e =
    ap (λ n. n ∷ map table_name ts) (e ∙ ap table_name (sym (some_inj g)))
map-set (u ∷ ts) (suc q) t s g e = ap (◌∷◌ (table_name u)) (map-set ts q t s g e)

pub Among-get :
    (ts : List ListeningTable) (q : ℕ) (t : ListeningTable)
    → get_elem? ts q ≡ some t
    → Among (map table_name ts) (table_name t)
Among-get [] q t g = cc
Among-get (u ∷ ts) zero t g = let e : u ≡ t = some_inj g in rw e here
Among-get (u ∷ ts) (suc q) t g = there (Among-get ts q t g)

-- ===== src/Listener/MapLaws.antt =====
-- glob_table_map_events (mysql_rpl_listener_2/mysql_rpl_listener_2.cc) as a map.
use mysql_replication_c.Base.{
  ℕ, ◌<◌, ◌≤◌, ◌≡◌, ◌≢◌, refl, ◌∙◌, List, [], ◌∷◌, none, some, All, ltb, ltb→lt, ◌==◌, ==_iff,
  ==_false, Bool-cases, inl, inr, arith,
}
use mysql_replication_c.Event.{TableMapEvent}
use mysql_replication_c.Listener.Tables.{find_map, erase_map, insert_map, store_map}

-- The keys are below `j` in front of it: the order of std::map.
unfoldable pub Above : ℕ → List (ℕ × TableMapEvent) → Type 0
Above k [] = Unit {0}
Above k ((j, e) ∷ es) = (k < j) × Above j es

-- A well-formed map: the keys rise strictly.
unfoldable pub IsMap : List (ℕ × TableMapEvent) → Type 0
unfolding Above
IsMap [] = Unit {0}
IsMap ((j, e) ∷ es) = Above j es

Above-low : (k j : ℕ) (es : List (ℕ × TableMapEvent)) → k ≤ j → Above j es → Above k es
unfolding Above
Above-low k j [] h a = tt
Above-low k j ((i, e) ∷ es) h a = (omega (arith, a.0), a.1)

find-Above : (k : ℕ) (es : List (ℕ × TableMapEvent)) → Above k es → find_map k es ≡ none
unfolding Above find_map
find-Above k [] a = refl
find-Above k ((j, e) ∷ es) a =
    let ne : j ≢ k = λ p. absurd (omega (arith, a.0, p)) in
    rw (==_false j k ne) (find-Above k es (Above-low k j es (omega (arith, a.0)) a.1))

Above-erase : (i k : ℕ) (es : List (ℕ × TableMapEvent)) → Above i es → Above i (erase_map k es)
unfolding Above erase_map
Above-erase i k [] a = tt
Above-erase i k ((j, e) ∷ es) a = elim (Bool-cases (j == k)) [
  | inl p ↦ rw p (Above-low i j es (omega (arith, a.0)) a.1)
  | inr p ↦ rw p (a.0, Above-erase j k es a.1)
]

find-erase_other :
    (k l : ℕ) (es : List (ℕ × TableMapEvent)) → l ≢ k → find_map l (erase_map k es) ≡ find_map l es
unfolding find_map erase_map
find-erase_other k l [] ne = refl
find-erase_other k l ((j, e) ∷ es) ne = elim (Bool-cases (j == k)) [
  | inl p ↦
      let other : j ≢ l = λ q. ne (let r : j ≡ k = (==_iff j k).0 p in cc) in
      rw (p, ==_false j l other) refl
  | inr p ↦ elim (Bool-cases (j == l)) [
    | inl q ↦ rw (p, q) refl
    | inr q ↦ rw (p, q) (find-erase_other k l es ne)
  ]
]

find-erase_same :
    (k : ℕ) (es : List (ℕ × TableMapEvent)) → IsMap es → find_map k (erase_map k es) ≡ none
unfolding find_map erase_map IsMap Above
find-erase_same k [] a = refl
find-erase_same k ((j, e) ∷ es) a = elim (Bool-cases (j == k)) [
  | inl p ↦ let same : j ≡ k = (==_iff j k).0 p in rw p (find-Above k es (rw same at a))
  | inr p ↦ rw (p, p) (find-erase_same k es (tail_map j es a))
]
  where
    tail_map : (j : ℕ) (es : List (ℕ × TableMapEvent)) → Above j es → IsMap es
    tail_map j [] a = tt
    tail_map j ((i, e) ∷ es) a = a.1

find-insert_same :
    (k : ℕ) (e : TableMapEvent) (es : List (ℕ × TableMapEvent))
    → find_map k es ≡ none
    → find_map k (insert_map k e es) ≡ some e
unfolding find_map insert_map
find-insert_same k e [] h = rw ((==_iff k k).1 refl) refl
find-insert_same k e ((j, f) ∷ es) h = elim (Bool-cases (ltb k j)) [
  | inl p ↦ rw (p, (==_iff k k).1 refl) refl
  | inr p ↦ elim (Bool-cases (j == k)) [
    | inl q ↦ absurd (let hit : some f ≡ none = rw q at h in cc)
    | inr q ↦ rw (p, q) (find-insert_same k e es (rw q at h))
  ]
]

find-insert_other :
    (k l : ℕ) (e : TableMapEvent) (es : List (ℕ × TableMapEvent))
    → l ≢ k
    → find_map l (insert_map k e es) ≡ find_map l es
unfolding find_map insert_map
find-insert_other k l e [] ne =
    let other : k ≢ l = λ q. ne (let r : k ≡ l = q in cc) in rw (==_false k l other) refl
find-insert_other k l e ((j, f) ∷ es) ne =
    let other : k ≢ l = λ q. ne (let r : k ≡ l = q in cc) in
    elim (Bool-cases (ltb k j)) [
      | inl p ↦ rw (p, ==_false k l other) refl
      | inr p ↦ elim (Bool-cases (j == l)) [
        | inl q ↦ rw (p, q) refl
        | inr q ↦ rw (p, q) (find-insert_other k l e es ne)
      ]
    ]

Above-insert :
    (i k : ℕ) (e : TableMapEvent) (es : List (ℕ × TableMapEvent))
    → i < k
    → find_map k es ≡ none
    → Above i es
    → Above i (insert_map k e es)
unfolding Above find_map insert_map
Above-insert i k e [] low h a = (low, tt)
Above-insert i k e ((j, f) ∷ es) low h a = elim (Bool-cases (ltb k j)) [
  | inl p ↦ rw p (low, (ltb→lt k j p, a.1))
  | inr p ↦ elim (Bool-cases (j == k)) [
    | inl q ↦ absurd (let hit : some f ≡ none = rw q at h in cc)
    | inr q ↦
        let below : j < k = ground arith in rw p (a.0, Above-insert j k e es below (rw q at h) a.1)
  ]
]

IsMap-Above : (es : List (ℕ × TableMapEvent)) (k : ℕ) → Above k es → IsMap es
unfolding IsMap Above
IsMap-Above [] k a = tt
IsMap-Above ((j, e) ∷ es) k a = a.1

IsMap-erase : (k : ℕ) (es : List (ℕ × TableMapEvent)) → IsMap es → IsMap (erase_map k es)
unfolding IsMap erase_map
IsMap-erase k [] a = tt
IsMap-erase k ((j, e) ∷ es) a = elim (Bool-cases (j == k)) [
  | inl p ↦ rw p (IsMap-Above es j a)
  | inr p ↦ rw p (Above-erase j k es a)
]

IsMap-insert :
    (k : ℕ) (e : TableMapEvent) (es : List (ℕ × TableMapEvent))
    → find_map k es ≡ none
    → IsMap es
    → IsMap (insert_map k e es)
unfolding IsMap Above find_map insert_map
IsMap-insert k e [] h a = tt
IsMap-insert k e ((j, f) ∷ es) h a = elim (Bool-cases (ltb k j)) [
  | inl p ↦ rw p (ltb→lt k j p, a)
  | inr p ↦ elim (Bool-cases (j == k)) [
    | inl q ↦ absurd (let hit : some f ≡ none = rw q at h in cc)
    | inr q ↦ let below : j < k = ground arith in rw p (Above-insert j k e es below (rw q at h) a)
  ]
]

-- The maps stand under their own ids.
abbrev pub IsKeyed : List (ℕ × TableMapEvent) → Type 0
IsKeyed es = All (λ p. p.0 ≡ p.1.table_id) es

erase-IsKeyed : (k : ℕ) (es : List (ℕ × TableMapEvent)) → IsKeyed es → IsKeyed (erase_map k es)
unfolding erase_map
erase-IsKeyed k [] h = tt
erase-IsKeyed k ((j, e) ∷ es) h = elim (Bool-cases (j == k)) [
  | inl p ↦ rw p h.1
  | inr p ↦ rw p (h.0, erase-IsKeyed k es h.1)
]

insert-IsKeyed :
    (e : TableMapEvent) (es : List (ℕ × TableMapEvent))
    → IsKeyed es
    → IsKeyed (insert_map e.table_id e es)
unfolding insert_map
insert-IsKeyed e [] h = (refl, tt)
insert-IsKeyed e ((j, f) ∷ es) h = elim (Bool-cases (ltb e.table_id j)) [
  | inl p ↦ rw p (refl, h)
  | inr p ↦ rw p (h.0, insert-IsKeyed e es h.1)
]

pub store-IsKeyed :
    (e : TableMapEvent) (es : List (ℕ × TableMapEvent)) → IsKeyed es → IsKeyed (store_map e es)
unfolding store_map
store-IsKeyed e es h = insert-IsKeyed e (erase_map e.table_id es) (erase-IsKeyed e.table_id es h)

-- Where the keys of the table maps rise: after a table map event is stored they still do, its id
-- leads to it, and every other id leads to what it led to before.
pub find-store :
    (e : TableMapEvent) (es : List (ℕ × TableMapEvent))
    → IsMap es
    → IsMap (store_map e es)
      × (find_map e.table_id (store_map e es) ≡ some e)
      × ((l : ℕ) → l ≢ e.table_id → find_map l (store_map e es) ≡ find_map l es)
unfolding store_map
find-store e es a =
    let gone = find-erase_same e.table_id es a in
    let rest = erase_map e.table_id es in
    (
      IsMap-insert e.table_id e rest gone (IsMap-erase e.table_id es a),
      find-insert_same e.table_id e rest gone,
      λ l ne. find-insert_other e.table_id l e rest ne ∙ find-erase_other e.table_id l es ne,
    )

-- ===== src/Client/Queries.antt =====
-- The queries that are read from a script (SQL_thread_loop_fnc in example/C/rpl_test_2.c).
use mysql_replication_c.Base.{
  ℕ, ◌+◌, ◌≤◌, ◌<◌, ◌≡◌, ◌≢◌, refl, sym, ap, ◌∙◌, Bool, true, false, List, [], ◌∷◌, ◌++◌,
  append-nil, append_assoc, map, All, ==_false, if_false, length, length-append, arith,
}
use mysql_replication_c.Base.Outcome.{ok, fault, ◌>>=◌}
use mysql_replication_c.Text.{Bytes}
use mysql_replication_c.Block.{Malloc, c_str}
use mysql_replication_c.Client.White.{IsWhite, StartsDark, EndsDark, trim_lem}
use mysql_replication_c.Client.Script.{trim, grow_query, send_query, read_queries, query_mem_len}

-- A character of a query.
abbrev pub IsInner : ℕ → Type 0
IsInner c = (c ≢ b';') × (c ≢ 0)

c_str-inner : (q : Bytes) → All IsInner q → c_str q ≡ q
unfolding c_str
c_str-inner [] h = refl
c_str-inner (c ∷ q) h = rw (==_false c 0 (h.0).1) (ap (◌∷◌ c) (c_str-inner q h.1))

module _ (malloc : Malloc) (accepts : Bytes → Bool) (fails : Bool) where
  -- There is room for the next character.
  roomy : (used : ℕ) → used < 1023 → grow_query malloc accepts used ≡ ok tt
  unfolding grow_query
  roomy used h =
      if_false _ _ _ (==_false (used + 1) query_mem_len (λ e. absurd (omega (arith, h, e))))

  -- Characters without a semicolon are collected, up to 1022 of them.
  collected :
      (acc q file : Bytes)
      → All (λ c. c ≢ b';') q
      → length acc + length q ≤ 1022
      → read_queries malloc accepts fails acc (q ++ file)
        ≡ read_queries malloc accepts fails (acc ++ q) file
  unfolding read_queries
  collected acc [] file h small =
      ap (λ a. read_queries malloc accepts fails a file) (sym (append-nil acc))
  collected acc (c ∷ q) file h small =
      let longer = acc ++ c ∷ [] in
      rw (roomy (length acc + 1) (omega (arith, small)), ==_false c b';' h.0)
        (collected longer q file h.1 (omega (arith, small, length-append acc (c ∷ [])))
          ∙ ap (λ a. read_queries malloc accepts fails a file) (append_assoc acc (c ∷ []) q))

  -- A query that is trimmed and accepted.
  abbrev IsTrimmed : Bytes × Bytes → Type 0
  IsTrimmed p = All IsInner p.0 × (length p.0 < 1022) × (trim p.0 ≡ ok p.1) × (accepts p.1 ≡ true)

  NoSemicolon : (q : Bytes) → All IsInner q → All (λ c. c ≢ b';') q
  NoSemicolon [] h = tt
  NoSemicolon (c ∷ q) h = ((h.0).0, NoSemicolon q h.1)

  -- The semicolon sends what was collected.
  sent :
      (p : Bytes × Bytes) (file : Bytes)
      → IsTrimmed p
      → read_queries malloc accepts fails p.0 (b';' ∷ file)
        ≡ (read_queries malloc accepts fails [] file >>= λ qs. ok (p.1 ∷ qs))
  unfolding read_queries send_query
  sent p file h =
      rw (roomy (length p.0 + 1) (omega (arith, h.1)), c_str-inner p.0 h.0, h.2, h.3) refl

  one_query :
      (p : Bytes × Bytes) (file : Bytes)
      → IsTrimmed p
      → read_queries malloc accepts fails [] (p.0 ++ b';' ∷ file)
        ≡ (read_queries malloc accepts fails [] file >>= λ qs. ok (p.1 ∷ qs))
  one_query p file h =
      collected [] p.0 (b';' ∷ file) (NoSemicolon p.0 h.0) (omega (arith, h.1)) ∙ sent p file h

  -- A query that does not end within 1023 characters: the block has to grow, and its old address is
  -- read once it is freed.
  pub long_query_lost :
      (q file : Bytes) (c : ℕ)
      → All (λ d. d ≢ b';') q
      → length q ≡ 1022
      → malloc 2048 ≡ true
      → read_queries malloc accepts fails [] (q ++ c ∷ file) ≡ fault
  unfolding read_queries grow_query
  long_query_lost q file c h long granted =
      collected [] q (c ∷ file) h (omega (arith, long)) ∙ rw (long, granted) refl

-- A query of a script with the white space around it.
pub record Query : Type 0 where
  pub front : Bytes
  pub text : Bytes
  pub back : Bytes

abbrev pub written : Query → Bytes
written q = q.front ++ (q.text ++ q.back)

abbrev pub script_text : List Query → Bytes
script_text [] = []
script_text (q ∷ qs) = written q ++ b';' ∷ script_text qs

-- A query without semicolons and NULs, of less than 1022 characters with the white space around it,
-- whose text starts and ends with other characters and is accepted.
abbrev pub IsQuery : (Bytes → Bool) → Query → Type 0
IsQuery accepts q =
    All IsInner (written q)
    × (length (written q) < 1022)
    × All IsWhite q.front
    × StartsDark q.text
    × EndsDark q.text
    × All IsWhite q.back
    × (accepts q.text ≡ true)

-- A script of queries without semicolons and NULs, each of less than 1022 characters with the white
-- space around it, not blank and accepted by the server, with a semicolon behind each: the queries
-- are sent in the order of the script, from their first to their last character that is not white
-- space, and nothing else.
pub script_sent :
    (malloc : Malloc) (accepts : Bytes → Bool) (qs : List Query)
    → All (IsQuery accepts) qs
    → read_queries malloc accepts false [] (script_text qs) ≡ ok (map (λ q. q.text) qs)
unfolding read_queries grow_query
script_sent malloc accepts [] h = refl
script_sent malloc accepts (q ∷ qs) (h, rest) =
    one_query malloc accepts false (written q, q.text) (script_text qs)
      (h.0, h.1, trim_lem q.front q.text q.back h.2 h.3 h.4 h.5, h.6)
    ∙ rw (script_sent malloc accepts qs rest) refl

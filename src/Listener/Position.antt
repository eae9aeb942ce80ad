-- ===== src/Listener/Position.antt =====
-- The position of a listener when the server goes over to another file of its log
-- (mysql_rpl_listener_2/mysql_rpl_listener_2.cc).
use mysql_replication_c.Base.{
  ℕ, ◌+◌, ◌-◌, ◌≢◌, ◌∙◌, ap, ltb, ltb-false→le, ◌==◌, ==_iff, take, take_all, All, ◌^◌, ◌<◌, ◌≡◌,
  refl, sym, subst, true, false, ◌⊎◌, inl, inr, Bool-cases, length, arith,
}
use mysql_replication_c.Base.Outcome.{ok, err, fault}
use mysql_replication_c.Text.{Bytes}
use mysql_replication_c.Block.{Malloc}
use mysql_replication_c.Block.Strlen.{c_str-no_nul}
use mysql_replication_c.Listener.Tables.{str_eq}
use mysql_replication_c.Listener.TableLaws.{&&-split, str_eq-true, str_eq_refl}
use mysql_replication_c.Mysql.{Mysql}
use mysql_replication_c.Event.{rotate_event}
use mysql_replication_c.Listener.{Listener}
use mysql_replication_c.Listener.Step.{Step}
use mysql_replication_c.Listener.Process.{
  process_event, process_rotate, same_file, new_name, next_turn,
}
use mysql_replication_c.Listener.Thread.{on_packet, event, advance_position}

-- The listener behind the header of a new file, whose first event starts at 4.
abbrev pub IsAtStart : Bytes → Listener → Type 0
IsAtStart ident k =
    (k.start_position ≡ 4)
    × (k.m_log_nm ≡ take 511 ident)
    × (k.file_name_length ≡ length k.m_log_nm)

abbrev pub IsUnmoved : Listener → Listener → Type 0
IsUnmoved l k = (k.start_position ≡ l.start_position) × (k.m_log_nm ≡ l.m_log_nm)

new_name_lem : (ident : Bytes) → All (λ c. c ≢ 0) ident → new_name ident ≡ take 511 ident
new_name_lem ident text = elim (Bool-cases (ltb 512 (length ident + 1))) [
  | inl a ↦ rw (a, c_str-no_nul ident text) refl
  | inr a ↦
      let room = ltb-false→le 512 (length ident + 1) a in
      rw (a, c_str-no_nul ident text)
        (take_all (length ident + 1 - 1) ident (omega arith)
          ∙ sym (take_all 511 ident (omega (arith, room))))
]

-- The comparison of the lengths and of the bytes.
same_file-true :
    (ident : Bytes) (l : Listener)
    → l.file_name_length ≡ length l.m_log_nm
    → same_file ident l ≡ true
    → ident ≡ l.m_log_nm
same_file-true ident l long h =
    str_eq-true ident (take l.file_name_length l.m_log_nm) (&&-split _ _ h).1
    ∙ take_all l.file_name_length l.m_log_nm (omega (arith, long))

same_file-false :
    (ident : Bytes) (l : Listener)
    → l.file_name_length ≡ length l.m_log_nm
    → same_file ident l ≡ false
    → ident ≢ l.m_log_nm
same_file-false ident l long h e =
    let size : (length ident == l.file_name_length) ≡ true =
      (==_iff _ _).1 (ap length e ∙ sym long) in
    let bytes : str_eq ident (take l.file_name_length l.m_log_nm) ≡ true =
      ap (str_eq ident) (take_all l.file_name_length l.m_log_nm (omega (arith, long)) ∙ sym e)
      ∙ str_eq_refl ident in
    absurd (let no : true ≡ false = sym (rw (size, bytes) refl) ∙ h in cc)

module _ (m : Mysql) (heap : ℕ → ℕ → Malloc) (ident : Bytes) (l : Listener) where
  -- The listener after the event that names another file, before its size is added.
  abbrev turned : Listener → Listener
  turned k = record k {
    m_log_nm = new_name ident;
    file_name_length = length (new_name ident);
    start_position = 0;
    size = 5;
  }

  same_lem :
      same_file ident l ≡ true
      → process_rotate ident (next_turn l) ≡ ok (record (next_turn l) { size = 1 })
  unfolding process_rotate
  same_lem h = rw h refl

  other_lem :
      same_file ident l ≡ false
      → l.has_file_name ≡ true
      → process_rotate ident (next_turn l) ≡ ok (turned (next_turn l))
  unfolding process_rotate
  other_lem h f = rw (h, f) refl

  rotated :
      (k : Listener)
      → process_rotate ident (next_turn l) ≡ ok k
      → on_packet m heap (event (rotate_event ident)) l ≡ ok (advance_position k)
  unfolding on_packet process_event
  rotated k h =
      subst
        (λ r.
          elim r as (λ s. Step) [ ok j ↦ ok (advance_position j) | err f ↦ err f | fault ↦ fault ]
          ≡ ok (advance_position k))
        (sym h) refl

  -- A rotate event with a name without NULs, of a listener that has a file name, its length and a
  -- position of 64 bits, is processed: the name of the listener's file leaves name and position, and
  -- any other name puts the listener at position 4 of that file, whose name is kept up to 511
  -- characters, and its length with it.
  pub rotate_position :
      All (λ c. c ≢ 0) ident
      → l.has_file_name ≡ true
      → l.file_name_length ≡ length l.m_log_nm
      → l.start_position < 2 ^ 64
      → (k : Listener) × (on_packet m heap (event (rotate_event ident)) l ≡ ok k)
        × (((ident ≡ l.m_log_nm) × IsUnmoved l k) ⊎ ((ident ≢ l.m_log_nm) × IsAtStart ident k))
  unfolding advance_position
  rotate_position text f long small = elim (Bool-cases (same_file ident l)) [
    | inl a ↦ (
      advance_position (record (next_turn l) { size = 1 }),
      rotated (record (next_turn l) { size = 1 }) (same_lem a),
      inl (same_file-true ident l long a, ((omega arith), refl)),
    )
    | inr a ↦ (
      advance_position (turned (next_turn l)),
      rotated (turned (next_turn l)) (other_lem a f),
      inr (same_file-false ident l long a, (refl, new_name_lem ident text, refl)),
    )
  ]

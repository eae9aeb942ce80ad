-- ===== src/Report/BaseName.antt =====
-- The file name in a reported error (extract_filename_from_full_path and repl_log_x_error_set in
-- mysql_rpl_listener_2/mysql_rpl_listener_2.cc).
use mysql_replication_c.Base.{
  some_inj, some_case, if_true, if_false, ℕ, zero, suc, ◌≤◌, ◌<◌, ◌^◌, ◌≡◌, ◌≢◌, refl, sym, ap, ◌∙◌,
  subst, Bool, true, false, [], ◌∷◌, ◌++◌, Option, none, some, ◌==◌, ==_iff, ==_false, drop_all,
  Bool-cases, ◌⊎◌, inl, inr, All, length, take, drop, get_elem?, arith,
}
use mysql_replication_c.Base.Int.{ℤ, pos, negsuc, i32, i32-pos}
use mysql_replication_c.Text.{Bytes}
use mysql_replication_c.Block.{strlen}
use mysql_replication_c.Block.Strlen.{c_str-no_nul}
use mysql_replication_c.Report.{
  ErrorRecord, base_name_from, extract_filename_from_full_path, repl_log_x_error_set,
  repl_log_error_set,
}

-- No slash is among the bytes.
abbrev pub HasNoSlash : Bytes → Type 0
HasNoSlash p = All (λ c. c ≢ b'/') p

-- `name` is what stands behind the last slash of `p`: all of `p` where there is none.
abbrev pub IsBaseName : Bytes → Bytes → Type 0
IsBaseName p name = HasNoSlash name × ((name ≡ p) ⊎ ((dir : Bytes) × (p ≡ dir ++ b'/' ∷ name)))

get-drop : (p : Bytes) (i c : ℕ) → get_elem? p i ≡ some c → drop i p ≡ c ∷ drop (suc i) p
get-drop [] i c h = absurd (let no : none ≡ some c = h in cc)
get-drop (d ∷ p) zero c h = ap (λ e. e ∷ p) (some_inj h)
get-drop (d ∷ p) (suc i) c h = get-drop p i c h

get-split : (p : Bytes) (i c : ℕ) → get_elem? p i ≡ some c → p ≡ take i p ++ c ∷ drop (suc i) p
get-split [] i c h = absurd (let no : none ≡ some c = h in cc)
get-split (d ∷ p) zero c h = ap (λ e. e ∷ p) (some_inj h)
get-split (d ∷ p) (suc i) c h = ap (◌∷◌ d) (get-split p i c h)

get-inside : (p : Bytes) (i : ℕ) → i < length p → (c : ℕ) × (get_elem? p i ≡ some c)
get-inside [] i h = absurd (omega (arith, h))
get-inside (c ∷ p) zero h = (c, refl)
get-inside (c ∷ p) (suc i) h = get-inside p i (omega (arith, h))

-- The loop from an index behind which there is no slash.
base_name_from_lem :
    (n : ℕ) (p : Bytes)
    → n ≤ length p
    → HasNoSlash (drop n p)
    → (name : Bytes) × (base_name_from n p ≡ some name) × IsBaseName p name
unfolding base_name_from
base_name_from_lem zero p h none_yet = (p, refl, (none_yet, inl refl))
base_name_from_lem (suc i) p h none_yet =
    let there = get-inside p i (omega (arith, h)) in
    let c = there.0 in
    elim (Bool-cases (c == b'/')) [
      | inl a ↦
          let slash : c ≡ b'/' = (==_iff c b'/').0 a in
          (
            drop (suc i) p,
            some_case _ _ (get_elem? p i) c there.1 ∙ if_true _ _ _ a,
            (
              none_yet,
              inr (
                take i p,
                subst (λ d. p ≡ take i p ++ d ∷ drop (suc i) p) slash (get-split p i c there.1),
              ),
            ),
          )
      | inr a ↦
          let other : c ≢ b'/' =
            λ e. absurd (let no : true ≡ false = sym ((==_iff c b'/').1 e) ∙ a in cc) in
          let rest =
            base_name_from_lem i p (omega (arith, h))
              (subst HasNoSlash (sym (get-drop p i c there.1)) (other, none_yet)) in
          (rest.0, (some_case _ _ (get_elem? p i) c there.1 ∙ (if_false _ _ _ a ∙ rest.1)), rest.2)
    ]

strlen-no_nul : (p : Bytes) → All (λ c. c ≢ 0) p → strlen p ≡ length p
unfolding strlen
strlen-no_nul [] h = refl
strlen-no_nul (c ∷ p) h = rw (==_false c 0 h.0) (ap suc (strlen-no_nul p h.1))

-- A path without a NUL, of less than 2 GB: the name that is found is all of it where it has no
-- slash, and else what stands behind its last slash; nothing is read behind the path.
pub base_name_lem :
    (p : Bytes)
    → All (λ c. c ≢ 0) p
    → length p < 2 ^ 31
    → (name : Bytes) × (extract_filename_from_full_path p ≡ some name) × IsBaseName p name
unfolding extract_filename_from_full_path
base_name_lem p text small =
    let all =
      base_name_from_lem (length p) p (omega arith)
        (subst HasNoSlash (sym (drop_all (length p) p (omega arith))) tt) in
    let len : i32 (strlen p) ≡ pos (length p) =
      ap i32 (strlen-no_nul p text) ∙ i32-pos (length p) small in
    (
      all.0,
      (subst
          (λ z.
            (elim z as (λ x. Option Bytes) [ pos n ↦ base_name_from n p | negsuc n ↦ some p ])
            ≡ some all.0)
          (sym len) all.1),
      all.2,
    )

-- What stands behind a slash has no NUL where the path has none.
behind_no_nul : (dir name : Bytes) → All (λ c. c ≢ 0) (dir ++ b'/' ∷ name) → All (λ c. c ≢ 0) name
behind_no_nul [] name h = h.1
behind_no_nul (c ∷ dir) name h = behind_no_nul dir name h.1

base_name-no_nul : (p name : Bytes) → All (λ c. c ≢ 0) p → IsBaseName p name → All (λ c. c ≢ 0) name
base_name-no_nul p name h (none_there, inl e) = subst (All (λ c. c ≢ 0)) (sym e) h
base_name-no_nul p name h (none_there, inr (dir, e)) =
    behind_no_nul dir name (subst (All (λ c. c ≢ 0)) e h)

-- The record of an error: what the caller says, the message as a C string up to 1023 characters, and
-- the name of the source file, up to as many.
abbrev pub IsReported : Bytes → Bytes → ℕ → Bool → ℤ → ErrorRecord → Type 0
IsReported path desc line is_error_mysql code r =
    (r.is_error ≡ true)
    × (r.is_error_mysql ≡ is_error_mysql)
    × (r.code ≡ code)
    × (r.line ≡ line)
    × (r.description ≡ take 1023 desc)
    × ((name : Bytes) × IsBaseName path name × (r.file ≡ take 1023 name))

-- An error with a message without NULs, that is set from a source whose path has no NUL and is less
-- than 2 GB long: nothing is read behind the path, and the record has the code, the line and the kind
-- of the error, the first 1023 characters of the message, and as many of what stands behind the last
-- slash of the path, or of all of it where it has no slash.
pub error_set_lem :
    (path desc : Bytes) (line : ℕ) (is_error_mysql : Bool) (code : ℤ)
    → All (λ c. c ≢ 0) path
    → All (λ c. c ≢ 0) desc
    → length path < 2 ^ 31
    → (r : ErrorRecord) × (repl_log_error_set path line is_error_mysql code desc ≡ some r)
      × IsReported path desc line is_error_mysql code r
unfolding repl_log_error_set repl_log_x_error_set
error_set_lem path desc line is_error_mysql code text said small =
    let found = base_name_lem path text small in
    let no_nul = base_name-no_nul path found.0 text found.2 in
    (
      repl_log_x_error_set is_error_mysql code desc found.0 line,
      some_case _ _ (extract_filename_from_full_path path) found.0 found.1,
      (
        refl,
        refl,
        refl,
        refl,
        ap (take 1023) (c_str-no_nul desc said),
        (found.0, found.2, ap (take 1023) (c_str-no_nul found.0 no_nul)),
      ),
    )

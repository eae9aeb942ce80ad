-- ===== src/Client/White.antt =====
-- White space around a query (ltrim, rtrim and trim in example/C/rpl_test_2.c).
use mysql_replication_c.Base.{
  ℕ, ◌≤◌, ◌<◌, ◌≡◌, ◌≢◌, refl, true, false, [], ◌∷◌, ◌++◌, All, ◌⊎◌, inl, inr, arith,
}
use mysql_replication_c.Base.Outcome.{ok}
use mysql_replication_c.Text.{Bytes}
use mysql_replication_c.Client.Script.{is_space, ltrim, without_end, rtrim, trim}

-- Space, and from tab to carriage return.
abbrev pub IsWhite : ℕ → Type 0
IsWhite c = (c ≡ 32) ⊎ ((9 ≤ c) × (c ≤ 13))

abbrev pub IsDark : ℕ → Type 0
IsDark c = (c ≢ 32) × ((c < 9) ⊎ (13 < c))

abbrev pub StartsDark : Bytes → Type 0
StartsDark [] = false ≡ true
StartsDark (c ∷ s) = IsDark c

abbrev pub EndsDark : Bytes → Type 0
EndsDark [] = false ≡ true
EndsDark (c ∷ []) = IsDark c
EndsDark (c ∷ d ∷ s) = EndsDark (d ∷ s)

white_lem : (c : ℕ) → IsWhite c → is_space c ≡ true
white_lem c (inl e) = rw e refl
white_lem c (inr h) = ground arith

dark_lem : (c : ℕ) → IsDark c → is_space c ≡ false
dark_lem c (h, inl low) = ground arith
dark_lem c (h, inr high) = ground arith

ltrim-front : (front s : Bytes) → All IsWhite front → ltrim (front ++ s) ≡ ltrim s
unfolding ltrim
ltrim-front [] s h = refl
ltrim-front (c ∷ front) s h = rw (white_lem c h.0) (ltrim-front front s h.1)

ltrim-text : (text back : Bytes) → StartsDark text → ltrim (text ++ back) ≡ text ++ back
unfolding ltrim
ltrim-text [] back h = absurd (let no : false ≡ true = h in cc)
ltrim-text (c ∷ text) back h = rw (dark_lem c h) refl

without_end-white : (back : Bytes) → All IsWhite back → without_end back ≡ []
unfolding without_end
without_end-white [] h = refl
without_end-white (c ∷ back) h = rw (without_end-white back h.1, white_lem c h.0) refl

without_end-text :
    (text back : Bytes) → EndsDark text → All IsWhite back → without_end (text ++ back) ≡ text
unfolding without_end
without_end-text [] back h w = absurd (let no : false ≡ true = h in cc)
without_end-text (c ∷ []) back h w = rw (without_end-white back w, dark_lem c h) refl
without_end-text (c ∷ d ∷ text) back h w = rw (without_end-text (d ∷ text) back h w) refl

pub trim_lem :
    (front text back : Bytes)
    → All IsWhite front
    → StartsDark text
    → EndsDark text
    → All IsWhite back
    → trim (front ++ (text ++ back)) ≡ ok text
unfolding trim rtrim without_end
trim_lem front [] back f s e b = absurd (let no : false ≡ true = s in cc)
trim_lem front (c ∷ text) back f s e b =
    rw
      (
        ltrim-front front (c ∷ (text ++ back)) f,
        ltrim-text (c ∷ text) back s,
        without_end-text (c ∷ text) back e b,
      )
      refl

-- ===== src/Decode/JsonWidths.antt =====
-- A whole JSON document of log_event_get_value_2 (rows_log_event_2/rows_log_event_2.cc): what is read of
-- the event, and what is written.
use mysql_replication_c.Base.{
  ℕ, ◌+◌, ◌-◌, ==_iff, ◌^◌, ◌≤◌, ◌<◌, ◌≡◌, refl, false, some, ◌==◌, length, take, drop, arith,
  length-drop, le→leb, [], ◌∷◌, ◌++◌, length-append, length-take, Bool-cases, inl, inr,
}
use mysql_replication_c.Base.Outcome.{Safe, Safe-bind}
use mysql_replication_c.Base.Int.{u32}
use mysql_replication_c.Text.{Bytes}
use mysql_replication_c.Block.{Malloc, alloc, put, snprintf, c_str}
use mysql_replication_c.Block.Steps.{fresh, load-eq-ok, memset_fresh}
use mysql_replication_c.Row.{json, DisplayBlobs, Value, Message, invalid_json, no_memory_for_value}
use mysql_replication_c.Mysql.{Mysql, Laws, Json, json_text, json_error, json_throws}
use mysql_replication_c.Decode.Json.{document_text, store_json, show_json, get_json, get_json_4}
use mysql_replication_c.Decode.BlobText.{blob_length, advance-eq-ok, length-prefix}
use mysql_replication_c.Decode.Taking.{Takes, alloc-Safe}

module _ (m : Mysql) (laws : Laws m) (malloc : Malloc) (p : Bytes) (v : Value) where
  store-Safe : (e : Message) (text : Bytes) → Safe (λ w. Unit {0}) (store_json m malloc e text v)
  unfolding store_json snprintf put
  store-Safe e text =
      let n = length (c_str text) in
      Safe-bind (λ b. b ≡ fresh (n + 16)) (λ w. Unit {0}) (alloc malloc (n + 16) e) _
        (alloc-Safe malloc (n + 16) e)
        (λ b same.
          rw
            (
              same,
              memset_fresh {E = Message} (n + 16),
              le→leb (0 + length (take (n + 1 - 1) (c_str text) ++ 0 ∷ [])) (n + 16) (
                  omega (
                    arith,
                    length-append (take (n + 1 - 1) (c_str text)) (0 ∷ []),
                    length-take (n + 1 - 1) (c_str text),
                  )),
            )
            tt)

  document-Safe : (j : Json) → Safe (λ t. Unit {0}) (document_text j invalid_json)
  unfolding document_text
  document-Safe (json_text s) = tt
  document-Safe json_error = tt
  document-Safe (json_throws s) = tt

  shown_json-Safe :
      (n : ℕ) (q : Bytes) → n ≤ length q → Safe (λ w. Unit {0}) (show_json m malloc false q n v)
  unfolding show_json
  shown_json-Safe n q l = rw (load-eq-ok {E = Message} n q l) (
      Safe-bind (λ t. Unit {0}) (λ w. Unit {0})
        (document_text (m.parse_json (take n q)) invalid_json) _
        (document-Safe (m.parse_json (take n q))) (λ t u. store-Safe (no_memory_for_value json) t))

  json-Takes :
      (d : DisplayBlobs)
      → 4 + blob_length 4 p ≤ length p
      → length p + 16 < 2 ^ 31
      → Takes (4 + blob_length 4 p) (get_json m malloc (some p) 4 false v d)
  unfolding get_json get_json_4
  json-Takes d whole small =
      let l = blob_length 4 p in
      let size : u32 (l + 4) ≡ 4 + l = omega arith in
      rw
        (
          load-eq-ok {E = Message} 4 p (omega arith),
          laws.uint4_lem (take 4 p) (length-prefix 4 p (omega arith)),
          advance-eq-ok 4 p (omega arith),
          size,
        )
        (elim (Bool-cases (d.blobs_display == 0)) [
          | inl a ↦ rw a refl
          | inr a ↦ rw a (
              Safe-bind (λ w. Unit {0}) (λ r. r.0 ≡ 4 + l) (show_json m malloc false (drop 4 p) l v)
                _ (shown_json-Safe l (drop 4 p) (omega (arith, length-drop 4 p))) (λ w u. refl))
        ])

  pub json_value :
      (meta : ℕ) (d : DisplayBlobs)
      → meta + blob_length meta p ≤ length p
      → length p + 16 < 2 ^ 31
      → Takes (meta + blob_length meta p) (get_json m malloc (some p) meta false v d)
  unfolding get_json
  json_value meta d whole small = elim (Bool-cases (meta == 4)) [
    | inl a ↦ let e : meta ≡ 4 = (==_iff meta 4).0 a in rw e (json-Takes d (rw e at whole) small)
    | inr a ↦ rw a tt
  ]

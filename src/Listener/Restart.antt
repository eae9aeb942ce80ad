-- ===== src/Listener/Restart.antt =====
-- A listener that is made from what another one saved: get_last_sucessful_position,
-- get_tablemap_events and the constructor (mysql_rpl_listener_2/mysql_rpl_listener_2.cc).
use mysql_replication_c.Base.{
  ℕ, ◌+◌, ◌<◌, ◌≤◌, ◌^◌, ◌≡◌, refl, sym, ap, subst, ◌∙◌, true, false, List, [], ◌∷◌, ◌++◌,
  append-nil, append_assoc, map, some, All, ltb, ==_false, length, take, drop, length-drop,
  take_all, arith,
}
use mysql_replication_c.Base.Int.{u32}
use mysql_replication_c.Base.Outcome.{ok}
use mysql_replication_c.Text.{Bytes}
use mysql_replication_c.Block.{Malloc, alloc, load}
use mysql_replication_c.Mysql.{little_endian}
use mysql_replication_c.Event.{TableMapEvent}
use mysql_replication_c.Listener.{Listener, ended}
use mysql_replication_c.Listener.Lifecycle.{
  copy_text, SavedEvent, saved_map, load_maps, Options, set_position, new_listener,
  get_last_sucessful_position, map_buffer, map_buffers, tablemaps_in, get_tablemap_events,
}
use mysql_replication_c.Listener.Tables.{erase_map, insert_map, store_map}
use mysql_replication_c.Listener.MapLaws.{IsMap, IsKeyed, Above}
use mysql_replication_c.Listener.WellFormed.{IsWellFormed}

-- The keys are below `k`.
abbrev Below : ℕ → List (ℕ × TableMapEvent) → Type 0
Below k es = All (λ p. p.0 < k) es

erase-Below : (k : ℕ) (es : List (ℕ × TableMapEvent)) → Below k es → erase_map k es ≡ es
unfolding erase_map
erase-Below k [] h = refl
erase-Below k ((j, e) ∷ es) h =
    rw (==_false j k (λ p. absurd (omega (arith, h.0, p)))) (ap (◌∷◌ (j, e)) (erase-Below k es h.1))

insert-Below :
    (k : ℕ) (e : TableMapEvent) (es : List (ℕ × TableMapEvent))
    → Below k es
    → insert_map k e es ≡ es ++ (k, e) ∷ []
unfolding insert_map
insert-Below k e [] h = refl
insert-Below k e ((j, f) ∷ es) h =
    let later : ltb k j ≡ false = ground (arith, h.0) in
    rw later (ap (◌∷◌ (j, f)) (insert-Below k e es h.1))

store-Below :
    (e : TableMapEvent) (es : List (ℕ × TableMapEvent))
    → Below e.table_id es
    → store_map e es ≡ es ++ (e.table_id, e) ∷ []
unfolding store_map
store-Below e es h = rw (erase-Below e.table_id es h) (insert-Below e.table_id e es h)

Below-later :
    (k j : ℕ) (e : TableMapEvent) (es : List (ℕ × TableMapEvent))
    → k < j
    → Below k es
    → Below j (es ++ (k, e) ∷ [])
Below-later k j e [] h b = (h, tt)
Below-later k j e (p ∷ es) h b = ((omega (arith, h, b.0)), Below-later k j e es h b.1)

-- Maps whose keys rise, given back one after the other behind smaller ones, are stored in their
-- order.
load_behind :
    (es ds : List (ℕ × TableMapEvent)) (k : ℕ)
    → Above k es
    → IsKeyed es
    → ((j : ℕ) → k < j → Below j ds)
    → load_maps (map (λ p. saved_map p.1) es) ds ≡ ds ++ es
unfolding load_maps Above
load_behind [] ds k a keyed below = sym (append-nil ds)
load_behind ((j, e) ∷ es) ds k a keyed below =
    let later : Below e.table_id ds = subst (λ i. Below i ds) keyed.0 (below j a.0) in
    let stored : store_map e ds ≡ ds ++ (j, e) ∷ [] =
      store-Below e ds later ∙ ap (λ i. ds ++ (i, e) ∷ []) (sym keyed.0) in
    ap (load_maps (map (λ p. saved_map p.1) es)) stored
    ∙ (load_behind es (ds ++ (j, e) ∷ []) j a.1 keyed.1
          (λ i h. Below-later j i e ds h (below j a.0))
        ∙ append_assoc ds ((j, e) ∷ []) es)

-- A std::map is built again from its events in the order of the keys.
load_maps-exact :
    (es : List (ℕ × TableMapEvent))
    → IsMap es
    → IsKeyed es
    → load_maps (map (λ p. saved_map p.1) es) [] ≡ es
unfolding load_maps IsMap store_map erase_map insert_map
load_maps-exact [] a keyed = refl
load_maps-exact ((j, e) ∷ es) a keyed =
    ap (λ i. load_maps (map (λ p. saved_map p.1) es) ((i, e) ∷ [])) (sym keyed.0)
    ∙ load_behind es ((j, e) ∷ []) j a keyed.1 (λ i h. (h, tt))

-- An event as it was read holds its own length, of 32 bits, behind its first nine bytes.
abbrev pub IsWhole : Bytes → Type 0
IsWhole buf =
    (13 ≤ length buf) × (length buf < 2 ^ 32) × (little_endian (take 4 (drop 9 buf)) ≡ length buf)

map_buffer-exact :
    (malloc : Malloc) (buf : Bytes)
    → ((n : ℕ) → malloc n ≡ true)
    → IsWhole buf
    → map_buffer malloc buf ≡ ok buf
unfolding map_buffer load alloc
map_buffer-exact malloc buf grants whole =
    let there : ltb (length (drop 9 buf)) 4 ≡ false = ground (arith, length-drop 9 buf, whole.0) in
    let enough : ltb (length buf) (length buf) ≡ false = ground arith in
    let all : take (length buf) buf ≡ buf = take_all (length buf) buf (omega arith) in
    rw (there, whole.2, grants (u32 (length buf + 1)), enough, all) refl

map_buffers-exact :
    (heap : ℕ → Malloc) (es : List (ℕ × TableMapEvent))
    → ((i n : ℕ) → heap i n ≡ true)
    → All (λ p. IsWhole p.1.temp_buf) es
    → map_buffers heap es ≡ ok (map (λ p. p.1.temp_buf) es)
unfolding map_buffers
map_buffers-exact heap [] grants whole = refl
map_buffers-exact heap ((k, e) ∷ es) grants whole =
    rw
      (
        map_buffer-exact (heap 0) e.temp_buf (grants 0) whole.0,
        map_buffers-exact (λ i. heap (i + 1)) es (λ i. grants (i + 1)) whole.1,
      )
      refl

-- What the user saved of a listener that has ended.
abbrev pub saved_options : (Bytes → SavedEvent) → Options → Bytes × ℕ → List Bytes → Options
saved_options parse o position buffers = record o {
  master_file_name = some position.0;
  master_file_pos = position.1;
  saved = map parse buffers;
}

-- `k` stands where `l` stands, with its table maps.
abbrev pub StandsAs : Listener → Listener → Type 0
StandsAs l k =
    (k.m_log_nm ≡ l.m_log_nm)
    × (k.file_name_length ≡ l.file_name_length)
    × (k.start_position ≡ l.start_position)
    × (k.table_map_events ≡ l.table_map_events)

-- The events are deserialized again as they were.
abbrev pub IsSaved : (Bytes → SavedEvent) → ℕ × TableMapEvent → Type 0
IsSaved parse p = IsWhole p.1.temp_buf × (parse p.1.temp_buf ≡ saved_map p.1)

parse-map :
    (parse : Bytes → SavedEvent) (es : List (ℕ × TableMapEvent))
    → All (IsSaved parse) es
    → map parse (map (λ p. p.1.temp_buf) es) ≡ map (λ p. saved_map p.1) es
parse-map parse [] h = refl
parse-map parse (p ∷ es) h = rw (h.0.1, parse-map parse es h.1) refl

Saved-Whole :
    (parse : Bytes → SavedEvent) (es : List (ℕ × TableMapEvent))
    → All (IsSaved parse) es
    → All (λ p. IsWhole p.1.temp_buf) es
Saved-Whole parse [] h = tt
Saved-Whole parse (p ∷ es) h = (h.0.0, Saved-Whole parse es h.1)

-- A well-formed listener that has ended, with a file name, whose table maps are of whole events that
-- are deserialized again as they were: where every block is granted, its table
-- maps are copied, and a new listener that is given them, with the name (read into 512 bytes) and
-- the position, has the same name, position and table maps.
pub restart_same :
    (parse : Bytes → SavedEvent) (heap : ℕ → Malloc) (o : Options) (l : Listener)
    → ((i n : ℕ) → heap i n ≡ true)
    → IsWellFormed l
    → All (IsSaved parse) l.table_map_events
    → l.has_file_name ≡ true
    → l.state ≡ ended
    → (buffers : List Bytes) × (get_tablemap_events heap l ≡ ok buffers)
      × StandsAs l
          (new_listener (saved_options parse o (get_last_sucessful_position 512 l) buffers))
unfolding get_tablemap_events tablemaps_in get_last_sucessful_position new_listener set_position
restart_same parse heap o l grants well saved named over =
    let es = l.table_map_events in
    let copied : copy_text 512 l.m_log_nm ≡ l.m_log_nm =
      take_all 511 l.m_log_nm (omega (arith, well.2)) in
    let maps : load_maps (map parse (map (λ p. p.1.temp_buf) es)) [] ≡ es =
      ap (λ ss. load_maps ss []) (parse-map parse es saved) ∙ load_maps-exact es well.0 well.4 in
    (
      map (λ p. p.1.temp_buf) es,
      rw over (map_buffers-exact heap es grants (Saved-Whole parse es saved)),
      (
        (rw (named, copied, copied) refl),
        (rw (named, copied, copied) (sym well.1)),
        (rw named refl),
        maps,
      ),
    )

-- ===== src/Listener/Sound.antt =====
-- Well-formedness through the calls of the user and the replication thread
-- (mysql_rpl_listener_2/mysql_rpl_listener_2.cc).
use mysql_replication_c.Base.{
  ℕ, ◌<◌, ◌^◌, refl, true, false, ◌||◌, List, [], ◌∷◌, Option, none, some, Bool-cases, inl, inr,
  arith,
}
use mysql_replication_c.Base.Outcome.{ok, err, fault}
use mysql_replication_c.Text.{Bytes}
use mysql_replication_c.Block.{Malloc}
use mysql_replication_c.Mysql.{Mysql}
use mysql_replication_c.Event.{TableMapEvent}
use mysql_replication_c.Listener.{
  Listener, State, created, post_created, prepared, post_prepared, inprocess_1, inprocess, ended,
}
use mysql_replication_c.Listener.Lifecycle.{
  Options, SavedEvent, saved_map, not_a_map, not_readable, load_maps, new_listener, set_position,
  blank_listener, table_add, add_table, ThreadCalls, attr_init_fails, attr_set_fails, create_fails,
  thread_starts, started, start_from, start_replication,
}
use mysql_replication_c.Listener.Tables.{store_map}
use mysql_replication_c.Listener.Step.{Step}
use mysql_replication_c.Listener.Thread.{
  Turn, one_fetch, event_loop, Opening, description_fails, open_fails, opens, opened, give_up,
  close_thread, replication_thread,
}
use mysql_replication_c.Listener.Spec.{Keeps}
use mysql_replication_c.Listener.MapLaws.{IsMap, IsKeyed, find-store, store-IsKeyed}
use mysql_replication_c.Listener.Order.{either}
use mysql_replication_c.Listener.WellFormed.{IsWellFormed, fetch-Keeping, Keeping, copy_text-fits}

load_maps-IsMap :
    (ss : List SavedEvent) (es : List (ℕ × TableMapEvent))
    → IsMap es
    → IsKeyed es
    → IsMap (load_maps ss es) × IsKeyed (load_maps ss es)
unfolding load_maps
load_maps-IsMap [] es h w = (h, w)
load_maps-IsMap (saved_map e ∷ ss) es h w =
    load_maps-IsMap ss (store_map e es) (find-store e es h).0 (store-IsKeyed e es w)
load_maps-IsMap (not_a_map ∷ ss) es h w = load_maps-IsMap ss es h w
load_maps-IsMap (not_readable ∷ ss) es h w = (h, w)

-- A new listener is well-formed, for a given position of 64 bits.
pub new_listener-IsWellFormed :
    (o : Options) → o.master_file_pos < 2 ^ 64 → IsWellFormed (new_listener o)
unfolding new_listener blank_listener set_position IsMap
new_listener-IsWellFormed o h = given o.master_file_name
  where
    given : (f : Option Bytes) → IsWellFormed (set_position f o (blank_listener o))
    given none = (tt, refl, (omega arith), (omega arith), tt)
    given (some f) =
        let maps = load_maps-IsMap o.saved [] tt tt in
        (maps.0, refl, copy_text-fits 512 f (omega arith), h, maps.1)

pub table_add-IsWellFormed :
    (db tbl : Bytes) (l : Listener) → IsWellFormed l → IsWellFormed ((table_add db tbl l).0)
unfolding table_add add_table
table_add-IsWellFormed db tbl l h = given l.state
  where
    given : (s : State) → IsWellFormed ((add_table s db tbl l).0)
    given created = h
    given post_created = h
    given prepared = h
    given post_prepared = h
    given inprocess_1 = h
    given inprocess = h
    given ended = h

pub start-IsWellFormed :
    (calls : ThreadCalls) (l : Listener)
    → IsWellFormed l
    → IsWellFormed (either l (start_replication calls l))
unfolding start_replication start_from started
start-IsWellFormed calls l h = given l.state
  where
    begun : (c : ThreadCalls) → IsWellFormed (either l (started c l))
    begun attr_init_fails = h
    begun attr_set_fails = h
    begun create_fails = h
    begun thread_starts = h

    given : (s : State) → IsWellFormed (either l (start_from s calls l))
    given prepared = begun calls
    given created = h
    given post_created = h
    given post_prepared = h
    given inprocess_1 = h
    given inprocess = h
    given ended = h

module _ (m : Mysql) (heap : ℕ → ℕ → Malloc) where
  pub loop-IsWellFormed :
      (ts : List Turn) (l : Listener) → IsWellFormed l → Keeps IsWellFormed (event_loop m heap ts l)
  unfolding event_loop
  loop-IsWellFormed [] l h = h
  loop-IsWellFormed (t ∷ ts) l h =
      given (one_fetch m heap t.fetch (record l { need_stop = l.need_stop || t.stop }))
        (fetch-Keeping m heap t.fetch (record l { need_stop = l.need_stop || t.stop }))
        (λ k w. loop-IsWellFormed ts k w)
    where
      given :
          (r : Step)
          → Keeping (record l { need_stop = l.need_stop || t.stop }) r
          → ((k : Listener) → IsWellFormed k → Keeps IsWellFormed (event_loop m heap ts k))
          → Keeps IsWellFormed (elim r [
            | ok k ↦ elim k.need_stop [ true ↦ ok k | false ↦ event_loop m heap ts k ]
            | err f ↦ err f
            | fault ↦ fault
          ])
      given (ok k) p rest = elim (Bool-cases k.need_stop) [
        | inl e ↦ rw e (p.3 h)
        | inr e ↦ rw e (rest k (p.3 h))
      ]
      given (err (k, f)) p rest = p.3 h
      given fault p rest = tt

  pub thread-IsWellFormed :
      (o : Opening) (ts : List Turn) (l : Listener)
      → IsWellFormed l
      → Keeps IsWellFormed (replication_thread m heap o ts l)
  unfolding replication_thread give_up close_thread IsMap
  thread-IsWellFormed description_fails ts l h = h
  thread-IsWellFormed open_fails ts l h = (tt, h.1, h.2, h.3, tt)
  thread-IsWellFormed opens ts l h =
      closed (event_loop m heap ts (opened l))
        (loop-IsWellFormed ts (opened l) (tt, h.1, h.2, h.3, tt))
    where
      closed :
          (r : Step)
          → Keeps IsWellFormed r
          → Keeps IsWellFormed (elim r [
            | ok k ↦ ok (close_thread k)
            | err (k, f) ↦ err (close_thread k, f)
            | fault ↦ fault
          ])
      closed (ok k) p = p
      closed (err (k, f)) p = p
      closed fault p = tt

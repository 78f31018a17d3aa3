-- ===== src/Events/Upsert/Placed.antt =====
-- What the writes of `upsert_one` of src/events/fjall_store.rs make of pointers and rows.
use toki_sync.Prelude.{
  ◌≡◌, ◌≢◌, refl, ◌∙◌, sym, ap, Bool, false, Option, none, some, ◌++◌, Str, str_eq, str_eq_iff,
  str_eq_refl, is_empty, if◌then◌else◌, arith, drop, Bool-cases, inl, inr,
}
use toki_sync.Events.{ServerEvent}
use toki_sync.Events.Bytes.{IsI64}
use toki_sync.Events.Store.{
  Fjall, Bincode, PersistedEvent, encode_event, decode-encode_event, idx_key_of, event_key_of,
  events, idx_msg, Store, read, commit, effects, read-commit,
}
use toki_sync.Events.Upsert.{row, decoded, insertion, removal}
use toki_sync.Events.Upsert.Indexed.{stripped, live_at, live, Pointed, IsIndexed, drop-event_key}

module _ (F : Fjall) (codec : Bincode PersistedEvent) where
  pub insertion_idx :
      (e : ServerEvent) (k : Str) (o : Option Str)
      → effects F (insertion F codec e) idx_msg k o
        ≡ (if str_eq (idx_key_of e) k then some (event_key_of e) else o)
  unfolding insertion
  insertion_idx e k o = elim (Bool-cases (is_empty e.session)) [ inl h ↦ rw h | inr h ↦ rw h ]

  pub insertion_row :
      (e : ServerEvent) (j : Str) (o : Option Str)
      → effects F (insertion F codec e) events j o
        ≡ (if str_eq (event_key_of e) j then some (encode_event codec e) else o)
  unfolding insertion
  insertion_row e j o = elim (Bool-cases (is_empty e.session)) [ inl h ↦ rw h | inr h ↦ rw h ]

  module _ (st : Store F) (e : ServerEvent) (key : Str) where
    pub replaced_idx :
        (k : Str)
        → read F (commit F st (removal F codec st e key ++ insertion F codec e)) idx_msg k
          ≡ (if str_eq (idx_key_of e) k then some (event_key_of e) else read F st idx_msg k)
    unfolding removal
    replaced_idx k =
        read-commit F (removal F codec st e key ++ insertion F codec e) st idx_msg k
        ∙ insertion_idx e k (read F st idx_msg k)

    pub replaced_row :
        (j : Str)
        → read F (commit F st (removal F codec st e key ++ insertion F codec e)) events j ≡ (
            if str_eq (event_key_of e) j
            then some (encode_event codec e)
            else if str_eq key j
            then none
            else read F st events j)
    unfolding removal
    replaced_row j =
        read-commit F (removal F codec st e key ++ insertion F codec e) st events j
        ∙ insertion_row e j (if str_eq key j then none else read F st events j)

  -- What a store becomes when an event is put in and the rows that `gone` names are taken out.
  pub record Placed (st st' : Store F) (e : ServerEvent) (gone : Str → Bool) : Type 0 where
    pub pointers :
        (k : Str)
        → read F st' idx_msg k
          ≡ (if str_eq (idx_key_of e) k then some (event_key_of e) else read F st idx_msg k)
    pub rows :
        (j : Str)
        → read F st' events j ≡ (
            if str_eq (event_key_of e) j
            then some (encode_event codec e)
            else if gone j
            then none
            else read F st events j)
    pub kept : (k key : Str) → idx_key_of e ≢ k → read F st idx_msg k ≡ some key → gone key ≡ false

  module _ (st st' : Store F) (e : ServerEvent) (gone : Str → Bool) (placed : Placed st st' e gone)
      (ix : IsIndexed F codec st) where
    new_row : row F codec st' (event_key_of e) ≡ some (stripped e)
    unfolding row
    new_row =
        rw (placed.rows (event_key_of e), str_eq_refl (event_key_of e))
          (decode-encode_event codec e)

    old_row :
        (k key : Str)
        → idx_key_of e ≢ k
        → read F st idx_msg k ≡ some key
        → row F codec st' key ≡ row F codec st key
    unfolding row
    old_row k key ne h =
        let p = ix k key h in
        let apart = λ (q : event_key_of e ≡ key). ne (
          sym (drop-event_key e)
          ∙ ap (drop 8) (q ∙ sym p.keyed)
          ∙ drop-event_key p.event
          ∙ p.named) in
        ap (decoded F codec) (
          placed.rows key
          ∙ ground (arith, placed.kept k key ne h, str_eq_iff (event_key_of e) key, apart))

    by_pointer :
        (k : Str) (o : Option Str)
        → idx_key_of e ≢ k
        → read F st idx_msg k ≡ o
        → live_at F codec st' o ≡ live_at F codec st o
    by_pointer k none ne h = refl
    by_pointer k (some key) ne h = old_row k key ne h

    pub placed_live :
        (k : Str)
        → live F codec st' k
          ≡ (if str_eq (idx_key_of e) k then some (stripped e) else live F codec st k)
    unfolding live
    placed_live k = elim (Bool-cases (str_eq (idx_key_of e) k)) [
      | inl q ↦ rw (placed.pointers k, q) new_row
      | inr q ↦
          rw (placed.pointers k, q)
            (by_pointer k (read F st idx_msg k)
              (λ w. absurd (ground (arith, str_eq_iff (idx_key_of e) k))) refl)
    ]

    new_pointer :
        (k key : Str)
        → idx_key_of e ≡ k
        → event_key_of e ≡ key
        → IsI64 e.ts_ms
        → Pointed F codec st' k key
    new_pointer k key n q r = record {
      event = stripped e;
      stored = rw q at new_row;
      keyed = q;
      named = n;
      ranged = r;
    }

    old_pointer :
        (k key : Str)
        → idx_key_of e ≢ k
        → read F st idx_msg k ≡ some key
        → Pointed F codec st' k key
    old_pointer k key ne h =
        let p = ix k key h in
        record {
          event = p.event;
          stored = old_row k key ne h ∙ p.stored;
          keyed = p.keyed;
          named = p.named;
          ranged = p.ranged;
        }

    pub placed-IsIndexed : IsI64 e.ts_ms → IsIndexed F codec st'
    placed-IsIndexed r k key h = elim (Bool-cases (str_eq (idx_key_of e) k)) [
      | inl q ↦
          let at = rw q at (placed.pointers k) in
          new_pointer k key (ground (arith, str_eq_iff (idx_key_of e) k)) (ground arith) r
      | inr q ↦
          let at = rw q at (placed.pointers k) in
          old_pointer k key (λ w. absurd (ground (arith, str_eq_iff (idx_key_of e) k))) (sym at ∙ h)
    ]

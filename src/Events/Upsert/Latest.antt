-- ===== src/Events/Upsert/Latest.antt =====
-- One event put into the store of src/events/fjall_store.rs: it refines the map of latest versions.
use toki_sync.Prelude.{
  ◌≡◌, refl, ◌∙◌, sym, ap, Bool, true, false, Option, none, some, ◌++◌, Str, str_eq, str_eq_iff,
  if◌then◌else◌, arith, ltb_ℤ, Bool-cases, inl, inr,
}
use toki_sync.Events.{ServerEvent}
use toki_sync.Events.Bytes.{IsI64}
use toki_sync.Events.Store.{
  Fjall, Bincode, PersistedEvent, idx_key_of, events, idx_msg, Store, read, commit, read-commit,
}
use toki_sync.Events.Upsert.{prev_ts, insertion, removal, replacing, upsert_one}
use toki_sync.Events.Upsert.Indexed.{
  stripped, newer, live_at, live, Pointed, IsIndexed, upsert, some_inj, prev_ts-event_key,
}
use toki_sync.Events.Upsert.Placed.{
  Placed, insertion_idx, insertion_row, replaced_idx, replaced_row, placed_live, placed-IsIndexed,
}

module _ (F : Fjall) (codec : Bincode PersistedEvent) where
  module _ (st : Store F) (e : ServerEvent) (ix : IsIndexed F codec st) where
    fresh-Placed :
        read F st idx_msg (idx_key_of e) ≡ none
        → Placed F codec st (commit F st (insertion F codec e)) e (λ _. false)
    fresh-Placed h = record {
      pointers = λ k.
          read-commit F (insertion F codec e) st idx_msg k
          ∙ insertion_idx F codec e k (read F st idx_msg k);
      rows = λ j.
          read-commit F (insertion F codec e) st events j
          ∙ insertion_row F codec e j (read F st events j);
      kept = λ _ _ _ _. refl;
    }

    -- Two pointers to one row are one pointer.
    one_pointer :
        (j k key : Str) → read F st idx_msg j ≡ some key → read F st idx_msg k ≡ some key → j ≡ k
    one_pointer j k key h w =
        let p = ix j key h in
        let q = ix k key w in
        let same_event = sym p.stored ∙ q.stored in
        sym p.named ∙ ap idx_key_of (some_inj p.event q.event same_event) ∙ q.named

    replaced-Placed :
        (key : Str)
        → read F st idx_msg (idx_key_of e) ≡ some key
        → Placed F codec st
            (commit F st (removal F codec st e key ++ insertion F codec e))
            e
            (str_eq key)
    replaced-Placed key h = record {
      pointers = replaced_idx F codec st e key;
      rows = replaced_row F codec st e key;
      kept = λ k key' ne w. elim (Bool-cases (str_eq key key')) [
        | inr q ↦ q
        | inl q ↦ absurd (
            ne (
              one_pointer (idx_key_of e) k key h
                (w ∙ ap some (sym (ground (arith, str_eq_iff key key'))))))
      ];
    }

    abbrev Outcome : Store F → Type 0
    Outcome st' =
        ((k : Str)
          → live F codec st' k
            ≡ (if str_eq (idx_key_of e) k then newer (live F codec st k) e else live F codec st k))
        × IsIndexed F codec st'

    at_identity :
        (k : Str) (o : Option Str)
        → str_eq (idx_key_of e) k ≡ true
        → read F st idx_msg (idx_key_of e) ≡ o
        → live F codec st k ≡ live_at F codec st o
    unfolding live
    at_identity k o q h =
        ap (live_at F codec st)
          (ap (read F st idx_msg) (sym (ground (arith, str_eq_iff (idx_key_of e) k))) ∙ h)

    by_placed :
        (st' : Store F) (gone : Str → Bool) (o : Option Str)
        → IsI64 e.ts_ms
        → Placed F codec st st' e gone
        → read F st idx_msg (idx_key_of e) ≡ o
        → newer (live_at F codec st o) e ≡ some (stripped e)
        → Outcome st'
    by_placed st' gone o r placed h w = (
      λ k. elim (Bool-cases (str_eq (idx_key_of e) k)) [
        | inl q ↦
            placed_live F codec st st' e gone placed ix k ∙ rw (q, at_identity k o q h) (sym w)
        | inr q ↦ placed_live F codec st st' e gone placed ix k ∙ rw q refl
      ],
      placed-IsIndexed F codec st st' e gone placed ix r,
    )

    stored_ts :
        (key : Str) (p : Pointed F codec st (idx_key_of e) key) → prev_ts key ≡ p.event.ts_ms
    stored_ts key p = ap prev_ts (sym p.keyed) ∙ prev_ts-event_key p.event p.ranged

    by_predecessor :
        (o : Option Str)
        → IsI64 e.ts_ms
        → read F st idx_msg (idx_key_of e) ≡ o
        → Outcome (commit F st (replacing F codec st e o))
    by_predecessor none r h =
        by_placed (commit F st (insertion F codec e)) (λ _. false) none r (fresh-Placed h) h refl
    by_predecessor (some key) r h =
        let p = ix (idx_key_of e) key h in
        let t = stored_ts key p in
        elim (Bool-cases (ltb_ℤ e.ts_ms (prev_ts key))) [
          | inl q ↦
              let stale = rw t at q in
              rw q (
                λ k. elim (Bool-cases (str_eq (idx_key_of e) k)) [
                  | inl w ↦ rw (w, at_identity k (some key) w h, p.stored, stale) refl
                  | inr w ↦ rw w refl
                ],
                ix,
              )
          | inr q ↦
              let late = rw t at q in
              rw q (
                by_placed (commit F st (removal F codec st e key ++ insertion F codec e))
                  (str_eq key) (some key) r (replaced-Placed key h) h (rw (p.stored, late) refl))
        ]

  -- Putting an event in. Of the store as a map from the identity of an event (device, provider and
  -- message) to an event, it changes the entry of that event alone, to the later of the two by
  -- timestamp, the new one on a tie. The pointers stay sound: each leads to a row with its identity,
  -- under the key of that row.
  pub upsert_refines :
      (st : Store F) (e : ServerEvent) (k : Str)
      → IsIndexed F codec st
      → IsI64 e.ts_ms
      → (live F codec (upsert F codec st e) k
          ≡ (if str_eq (idx_key_of e) k then newer (live F codec st k) e else live F codec st k))
        × IsIndexed F codec (upsert F codec st e)
  unfolding upsert_one
  upsert_refines st e k ix r =
      let o = by_predecessor st e ix (read F st idx_msg (idx_key_of e)) r refl in (o.0 k, o.1)

-- ===== src/Sync/Ack.antt =====
-- What the acknowledgement of a batch by src/sync/handler.rs promises.
use toki_sync.Prelude.{
  ℕ, ◌≡◌, ◌≢◌, ap, subst, Bool, true, false, some, List, [], ◌∷◌, Str, str_eq_refl, length, ltb,
  arith, ℤ, pos, ◌≤ℤ◌, max_ℤ, All, All-imp, Result, ok, err, Bool-cases, inl, inr,
}
use toki_sync.Events.Store.{Fjall, Bincode, PersistedEvent}
use toki_sync.Db.Cursors.{
  Cursor, find_cursor, get_last_ts, advance_cursor, find_cursor-advance_cursor,
}
use toki_sync.Sync.{SyncItem, SyncBatchPayload}
use toki_sync.Sync.Batch.{
  SyncState, max_ts, by_items, apply_batch, handle_sync_batch, max_batch_size, batch_too_large,
}

le_max_right : (a b c : ℤ) → a ≤ℤ c → a ≤ℤ max_ℤ b c
le_max_right a b c h = ground arith

le_max_left : (a b : ℤ) → a ≤ℤ max_ℤ a b
le_max_left a b = ground arith

le_refl : (a : ℤ) → a ≤ℤ a
le_refl a = ground arith

max_ts_bound : (i : SyncItem) (is : List SyncItem) → All (λ j. j.ts_ms ≤ℤ max_ts (i ∷ is)) (i ∷ is)
unfolding max_ts
max_ts_bound i [] = (le_refl i.ts_ms, tt)
max_ts_bound i (j ∷ is) = (
  le_max_left i.ts_ms (max_ts (j ∷ is)),
  All-imp (λ k h. le_max_right k.ts_ms i.ts_ms (max_ts (j ∷ is)) h) (j ∷ is) (max_ts_bound j is),
)

advanced :
    (cs : List Cursor) (d p : Str) (ts t : ℤ) (now : ℕ)
    → find_cursor cs d p ≡ some t
    → ts ≤ℤ get_last_ts (advance_cursor cs d p ts now) d p
unfolding get_last_ts
advanced cs d p ts t now h =
    rw (find_cursor-advance_cursor cs d p d p ts now, str_eq_refl d, str_eq_refl p, h)
      (le_max_right ts t ts (le_refl ts))

abbrev or_nought : {E : Type 0} → Result ℤ E → ℤ
or_nought (ok x) = x
or_nought (err e) = pos 0

ok_pair :
    {A E : Type 0} (a b : A) (x y : ℤ)
    → ◌≡◌ {A = A × Result ℤ E} (a, ok x) (b, ok y)
    → (a ≡ b) × (x ≡ y)
ok_pair a b x y h = (ap (λ r. r.0) h, ap (λ r. or_nought r.1) h)

abbrev is_ok : {E : Type 0} → Result ℤ E → Bool
is_ok (ok x) = true
is_ok (err e) = false

true_ne : false ≢ true
true_ne h = absurd (ground arith)

err_pair : {A E : Type 0} (a b : A) (e : E) (y : ℤ) → ◌≢◌ {A = A × Result ℤ E} (a, err e) (b, ok y)
err_pair a b e y h = absurd (true_ne (ap (λ r. is_ok r.1) h))

module _ (F : Fjall) (codec : Bincode PersistedEvent) (s s' : SyncState F codec)
    (batch : SyncBatchPayload) (user_id d p : Str) (retention now : ℕ) where
  nonempty_covered :
      (i : SyncItem) (is : List SyncItem) (ts t : ℤ)
      → find_cursor s.cursors d p ≡ some t
      → by_items F codec s batch user_id d p retention now (i ∷ is) ≡ (s', ok ts)
      → (apply_batch F codec s batch (i ∷ is) user_id d p retention now ≡ s')
        × (max_ts (i ∷ is) ≡ ts)
  nonempty_covered i is ts t c h = elim (Bool-cases (ltb max_batch_size (length (i ∷ is)))) [
    | inl q ↦ absurd (err_pair s s' (batch_too_large (length (i ∷ is))) ts (rw q at h))
    | inr q ↦
        ok_pair (apply_batch F codec s batch (i ∷ is) user_id d p retention now) s'
          (max_ts (i ∷ is)) ts (rw q at h)
  ]

  items_covered :
      (items : List SyncItem) (ts t : ℤ)
      → find_cursor s.cursors d p ≡ some t
      → by_items F codec s batch user_id d p retention now items ≡ (s', ok ts)
      → All (λ i. i.ts_ms ≤ℤ ts) items × (ts ≤ℤ get_last_ts s'.cursors d p)
  unfolding apply_batch
  items_covered [] ts t c h =
      let k = ok_pair s s' (get_last_ts s.cursors d p) ts h in
      (
        tt,
        subst (λ x. x ≤ℤ get_last_ts s'.cursors d p) k.1
            (subst (λ x. get_last_ts s.cursors d p ≤ℤ get_last_ts x.cursors d p) k.0
              (le_refl (get_last_ts s.cursors d p))),
      )
  items_covered (i ∷ is) ts t c h =
      let r = nonempty_covered i is ts t c h in
      (
        subst (λ x. All (λ j. j.ts_ms ≤ℤ x) (i ∷ is)) r.1 (max_ts_bound i is),
        subst (λ x. x ≤ℤ get_last_ts s'.cursors d p) r.1
            (subst (λ x. max_ts (i ∷ is) ≤ℤ get_last_ts x.cursors d p) r.0
              (advanced s.cursors d p (max_ts (i ∷ is)) t now c)),
      )

-- A batch that is acknowledged with a timestamp has no item after it, and leaves the cursor of the
-- device, if it has one for the provider, at that timestamp or later.
pub ack_covered :
    (F : Fjall) (codec : Bincode PersistedEvent) (s s' : SyncState F codec)
    (batch : SyncBatchPayload) (user_id d p : Str) (retention now : ℕ) (ts t : ℤ)
    → find_cursor s.cursors d p ≡ some t
    → handle_sync_batch F codec s batch user_id d p retention now ≡ (s', ok ts)
    → All (λ i. i.ts_ms ≤ℤ ts) batch.items × (ts ≤ℤ get_last_ts s'.cursors d p)
unfolding handle_sync_batch
ack_covered F codec s s' batch u d p retention now ts t c h =
    items_covered F codec s s' batch u d p retention now batch.items ts t c h

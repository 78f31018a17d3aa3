-- ===== src/Sync/Frames.antt =====
-- src/sync/protocol.rs: a frame is its type and the length of its payload, four bytes each with the lowest
-- first, and the payload. The numbers of the types belong to the protocol crate.
use toki_sync.Prelude.{
  append_assoc, append_nil, take_plus, drop_plus, length-drop, ℕ, zero, suc, ◌+◌, ◌-◌, ◌*◌, ◌/◌,
  ◌%◌, ◌^◌, ◌≤◌, ◌<◌, ◌≡◌, ◌≢◌, refl, sym, ap, ◌∙◌, true, false, Option, none, some, [], ◌∷◌, ◌++◌,
  Str, length, length-append, take, drop, ltb, min, if◌then◌else◌, arith, Result, ok, err, ◌>>=◌,
  Bool-cases, inl, inr,
}
use toki_sync.Events.Bytes.{take-length, drop-length}

-- `MsgType as u32` and `MsgType::from_u32`, and `MAX_PAYLOAD_SIZE`.
pub record Types : Type 1 where
  pub MsgType : Type 0
  pub as_u32 : MsgType → ℕ
  pub from_u32 : ℕ → Option MsgType
  pub max_payload_size : ℕ
  pub as_u32_lt : (t : MsgType) → as_u32 t < 2 ^ 32
  pub from-as_u32 : (t : MsgType) → from_u32 (as_u32 t) ≡ some t
  pub max_payload_size_lt : max_payload_size < 2 ^ 32

pub data IoError : Type 0 where
  invalid_input : IoError
  invalid_data : IoError
  unexpected_eof : IoError

-- `u32::to_le_bytes` and `u32::from_le_bytes`.
unfoldable pub to_le_bytes : ℕ → Str
to_le_bytes n = n % 256 ∷ (n / 256 % 256 ∷ (n / 65536 % 256 ∷ (n / 16777216 % 256 ∷ [])))

unfoldable pub from_le_bytes : Str → ℕ
from_le_bytes [] = 0
from_le_bytes (b ∷ bs) = b + 256 * from_le_bytes bs

-- `read_exact` of `n` bytes, and what is left.
abbrev pub read_exact : ℕ → Str → Result (Str × Str) IoError
read_exact n input =
    if ltb (length input) n then err unexpected_eof else ok (take n input, drop n input)

abbrev pub chunk : ℕ
chunk = 65536

-- The payload comes in chunks; each turn reads some, so that there are enough turns.
unfoldable pub read_chunks : ℕ → Str → ℕ → Str → Option (Result (Str × Str) IoError)
read_chunks zero payload remaining input = none
read_chunks (suc n) payload remaining input =
    let part = min remaining chunk in
    let rest = read_chunks n (payload ++ take part input) (remaining - part) (drop part input) in
    if ltb 0 remaining
    then if ltb (length input) part then some (err unexpected_eof) else rest
    else some (ok (payload, input))

module _ (T : Types) where
  unfoldable pub write_frame : T.MsgType → Str → Result Str IoError
  write_frame t payload =
      if ltb T.max_payload_size (length payload)
      then err invalid_input
      else ok (to_le_bytes (T.as_u32 t) ++ (to_le_bytes (length payload) ++ payload))

  abbrev pub write_empty_frame : T.MsgType → Result Str IoError
  write_empty_frame t = write_frame t []

  abbrev pub Received : Type 0
  Received = Result (T.MsgType × (Str × Str)) IoError

  abbrev pub typed : T.MsgType → Option (Result (Str × Str) IoError) → Option Received
  typed t none = none
  typed t (some r) = some (r >>= λ p. ok (t, p))

  abbrev pub with_type : ℕ → ℕ → Str → Option T.MsgType → Option Received
  with_type len max_payload input none = some (err invalid_data)
  with_type len max_payload input (some t) =
      if ltb max_payload len
      then some (err invalid_data)
      else typed t (read_chunks (suc len) [] len input)

  abbrev pub with_header : ℕ → Result (Str × Str) IoError → Option Received
  with_header max_payload (err e) = some (err e)
  with_header max_payload (ok (header, input)) =
      with_type (from_le_bytes (drop 4 header)) max_payload input
        (T.from_u32 (from_le_bytes (take 4 header)))

  -- The type, the payload and the input that is left; `none` when the turns do not suffice.
  unfoldable pub read_frame_inner : Str → ℕ → Option Received
  read_frame_inner input max_payload = with_header max_payload (read_exact 8 input)

  abbrev pub read_frame_limited : Str → ℕ → Option Received
  read_frame_limited input max_payload = read_frame_inner input (min max_payload T.max_payload_size)

  abbrev pub read_frame : Str → Option Received
  read_frame input = read_frame_inner input T.max_payload_size

-- One read of all that remains.
abbrev read_rest : Str → ℕ → Str → Result (Str × Str) IoError
read_rest payload remaining input =
    if ltb (length input) remaining
    then err unexpected_eof
    else ok (payload ++ take remaining input, drop remaining input)

rest_at_end :
    (payload : Str) (remaining : ℕ) (input : Str)
    → remaining ≡ 0
    → ok (payload, input) ≡ read_rest payload remaining input
rest_at_end payload remaining input h = rw (h, append_nil payload, not_less (length input)) refl
  where
    not_less : (n : ℕ) → ltb n 0 ≡ false
    not_less n = ground arith

rest_after :
    (payload : Str) (part remaining : ℕ) (input : Str)
    → part ≤ remaining
    → part ≤ length input
    → read_rest (payload ++ take part input) (remaining - part) (drop part input)
      ≡ read_rest payload remaining input
rest_after payload part remaining input h k =
    rw
      (
        same_test,
        append_assoc payload (take part input) (take (remaining - part) (drop part input)),
        sym (take_plus part (remaining - part) input),
        sym (drop_plus part (remaining - part) input),
        whole,
      )
      refl
  where
    whole : part + (remaining - part) ≡ remaining
    whole = omega (arith, h)

    same_test : ltb (length (drop part input)) (remaining - part) ≡ ltb (length input) remaining
    same_test = rw (length-drop part input) (ground (arith, h, k))

-- Reading in chunks is one read of as many bytes, and has turns enough with more of them than bytes.
chunks_are_one_read :
    (n : ℕ) (payload : Str) (remaining : ℕ) (input : Str)
    → remaining < n
    → read_chunks n payload remaining input ≡ some (read_rest payload remaining input)
unfolding read_chunks
chunks_are_one_read zero payload remaining input h = absurd (omega (arith, h))
chunks_are_one_read (suc n) payload remaining input h = elim (Bool-cases (ltb 0 remaining)) [
  | inr e ↦ rw e (ap some (rest_at_end payload remaining input (ground arith)))
  | inl e ↦
      let part = min remaining chunk in
      elim (Bool-cases (ltb (length input) part)) [
        | inl f ↦ rw (e, f) (ap some (too_short f))
        | inr f ↦
            rw (e, f)
              (chunks_are_one_read n (payload ++ take part input) (remaining - part)
                  (drop part input) (ground arith)
                ∙ ap some (rest_after payload part remaining input (omega arith) (ground arith)))
      ]
]
  where
    too_short :
        ltb (length input) (min remaining chunk) ≡ true
        → err unexpected_eof ≡ read_rest payload remaining input
    too_short f = ground arith

from-to_le_bytes : (n : ℕ) → n < 2 ^ 32 → from_le_bytes (to_le_bytes n) ≡ n
unfolding from_le_bytes to_le_bytes
from-to_le_bytes n h = omega (arith, h)

length-to_le_bytes : (n : ℕ) → length (to_le_bytes n) ≡ 4
unfolding to_le_bytes
length-to_le_bytes n = refl

module _ (T : Types) where
  -- A header of two numbers is taken apart again.
  header_back :
      (a b max_payload : ℕ) (input : Str)
      → a < 2 ^ 32
      → b < 2 ^ 32
      → read_frame_inner T (to_le_bytes a ++ (to_le_bytes b ++ input)) max_payload
        ≡ with_type T b max_payload input (T.from_u32 a)
  unfolding read_frame_inner to_le_bytes
  header_back a b max_payload input ha hb =
      rw (no_eof (length input)) (rw (from-to_le_bytes a ha, from-to_le_bytes b hb) refl)
    where
      no_eof : (n : ℕ) → ltb (suc (suc (suc (suc (suc (suc (suc (suc n)))))))) 8 ≡ false
      no_eof n = ground arith

  read_back :
      (t : T.MsgType) (payload rest : Str)
      → length payload ≤ T.max_payload_size
      → with_type T (length payload) T.max_payload_size (payload ++ rest) (some t)
        ≡ some (ok (t, (payload, rest)))
  read_back t payload rest h =
      rw
        (
          fits,
          chunks_are_one_read (suc (length payload)) [] (length payload) (payload ++ rest)
              (omega arith),
          enough,
          take-length (length payload) payload rest refl,
          drop-length (length payload) payload rest refl,
        )
        refl
    where
      fits : ltb T.max_payload_size (length payload) ≡ false
      fits = ground (arith, h)

      enough : ltb (length (payload ++ rest)) (length payload) ≡ false
      enough = ground (arith, length-append payload rest)

  type_bound :
      (len max_payload : ℕ) (input : Str) (o : Option T.MsgType)
      → with_type T len max_payload input o ≢ none
  type_bound len max_payload input none h = absurd (ground arith)
  type_bound len max_payload input (some t) h = elim (Bool-cases (ltb max_payload len)) [
    | inl e ↦ absurd (some_ne (rw e at h))
    | inr e ↦ absurd (
        some_ne (
          sym (ap (typed T t) (chunks_are_one_read (suc len) [] len input (omega arith)))
          ∙ (rw e at h)))
  ]
    where
      some_ne : {r : Received T} → ◌≢◌ {A = Option (Received T)} (some r) none
      some_ne h = absurd (ground arith)

  header_bound :
      (max_payload : ℕ) (r : Result (Str × Str) IoError) → with_header T max_payload r ≢ none
  header_bound max_payload (err e) h = absurd (ground arith)
  header_bound max_payload (ok (header, input)) h =
      type_bound (from_le_bytes (drop 4 header)) max_payload input
        (T.from_u32 (from_le_bytes (take 4 header))) h

-- The turns of the chunked read suffice: every input gives a frame or an error.
pub read_frame_ends :
    (T : Types) (input : Str) (max_payload : ℕ) → read_frame_inner T input max_payload ≢ none
unfolding read_frame_inner
read_frame_ends T input max_payload h = header_bound T max_payload (read_exact 8 input) h

written_frame :
    (T : Types) (t : T.MsgType) (payload bytes : Str)
    → write_frame T t payload ≡ ok bytes
    → (length payload ≤ T.max_payload_size)
      × (to_le_bytes (T.as_u32 t) ++ (to_le_bytes (length payload) ++ payload) ≡ bytes)
unfolding write_frame
written_frame T t payload bytes h = elim (Bool-cases (ltb T.max_payload_size (length payload))) [
  | inl e ↦ absurd (err_ne (rw e at h))
  | inr e ↦ (ground (arith, e), ok_eq (rw e at h))
]
  where
    err_ne : ◌≢◌ {A = Result Str IoError} (err invalid_input) (ok bytes)
    err_ne h = absurd (ground arith)

    ok_eq : {b : Str} → ◌≡◌ {A = Result Str IoError} (ok b) (ok bytes) → b ≡ bytes
    ok_eq h = ground arith

-- A frame that is written is read back, its type and its payload, and what follows it is left.
pub read-write_frame :
    (T : Types) (t : T.MsgType) (payload bytes rest : Str)
    → write_frame T t payload ≡ ok bytes
    → read_frame T (bytes ++ rest) ≡ some (ok (t, (payload, rest)))
read-write_frame T t payload bytes rest h =
    let w = written_frame T t payload bytes h in
    rw
      (
        sym w.1,
        append_assoc (to_le_bytes (T.as_u32 t)) (to_le_bytes (length payload) ++ payload) rest,
        append_assoc (to_le_bytes (length payload)) payload rest,
        header_back T (T.as_u32 t) (length payload) T.max_payload_size (payload ++ rest)
            (T.as_u32_lt t) (omega (arith, w.0, T.max_payload_size_lt)),
        T.from-as_u32 t,
      )
      (read_back T t payload rest w.0)

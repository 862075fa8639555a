-- ===== src/Protocol/Frame.antt =====
-- crates/protocol/src/frame.rs: a message as a length and the bytes of its JSON. The reader is the bytes that
-- are left, the writer those that are written; the JSON library is the record `Wire`.
use mathlib.Core.List.{append_assoc, append-nil}
use agent_mission_control.Prelude.{
  ℕ, zero, suc, ◌*◌, ◌%◌, ◌^◌, ◌<◌, ◌≡◌, refl, sym, ap, ◌∙◌, inl, inr, Bool, true, false, not, ltb,
  Bool-cases, Option-cases, Result-cases, Option, none, some, List, [], ◌∷◌, ◌++◌, length, Result,
  ok, err, ◌>>=◌, ◌>>◌, ok_or, refuse_if, if◌then◌else◌, arith,
}
use agent_mission_control.Protocol.Bytes.{
  Bytes, to_le_bytes, from_le_bytes, from_le_bytes_roundtrip, split_at, split_at-append,
}

abbrev pub max_frame_size : ℕ
max_frame_size = 1024 * 1024

pub data FrameError : Type 0 where
  frame_too_large invalid_utf8 invalid_json io : FrameError

pub record Wire : Type 1 where
  pub Value : Type 0
  pub to_vec : Value → Option Bytes
  pub is_utf8 : Bytes → Bool
  pub from_str : Bytes → Option Value

-- `read_exact` of the four bytes of a length.
unfoldable pub read_length : Bytes → Option (ℕ × Bytes)
unfolding from_le_bytes
read_length (a ∷ b ∷ c ∷ d ∷ rest) = some (from_le_bytes a b c d, rest)
read_length _ = none

ok_inj {ℓ κ} : {A : Type ℓ} {E : Type κ} {a b : A} → ◌≡◌ {A = Result A E} (ok a) (ok b) → a ≡ b
ok_inj {a = a} e = ap (λ r. elim r [ ok x ↦ x | err y ↦ a ]) e

module _ (wire : Wire) where
  open wire use {Value, to_vec, is_utf8, from_str}

  -- What `read_frame` does with the bytes of a message.
  unfoldable pub parse_payload : Bytes → Result Value FrameError
  parse_payload payload =
      if not (is_utf8 payload) then err invalid_utf8 else ok_or (from_str payload) invalid_json

  unfoldable pub read_frame : Bytes → Result (Value × Bytes) FrameError
  unfolding read_length split_at parse_payload
  read_frame reader = ok_or (read_length reader) io >>= λ header.
      refuse_if (ltb max_frame_size header.0) frame_too_large
      >> ok_or (split_at header.0 header.1) io
      >>= λ parts. parse_payload parts.0 >>= λ value. ok (value, parts.1)

  unfoldable pub write_frame : Bytes → Value → Result Bytes FrameError
  write_frame writer value = ok_or (to_vec value) invalid_json >>= λ payload.
      refuse_if (ltb max_frame_size (length payload)) frame_too_large
      >> ok (writer ++ to_le_bytes (length payload % 2 ^ 32) ++ payload)

  -- Frames one after the other.
  abbrev pub write_each : Bytes → List Value → Result Bytes FrameError
  write_each writer [] = ok writer
  write_each writer (v ∷ vs) = write_frame writer v >>= λ next. write_each next vs

  abbrev pub read_each : ℕ → Bytes → Result (List Value × Bytes) FrameError
  read_each zero reader = ok ([], reader)
  read_each (suc n) reader =
      read_frame reader >>= λ one. read_each n one.1 >>= λ more. ok (one.0 ∷ more.0, more.1)

  read_length-to_le_bytes :
      (n : ℕ) (rest : Bytes) → n < 4294967296 → read_length (to_le_bytes n ++ rest) ≡ some (n, rest)
  unfolding read_length to_le_bytes
  read_length-to_le_bytes n rest small = ap (λ k. some (k, rest)) (from_le_bytes_roundtrip n small)

  read_step :
      (n : ℕ) (reader : Bytes) (v : Value) (next : Bytes) (vs : List Value) (rest : Bytes)
      → read_frame reader ≡ ok (v, next)
      → read_each n next ≡ ok (vs, rest)
      → read_each (suc n) reader ≡ ok (v ∷ vs, rest)
  read_step n reader v next vs rest one more = rw (one, more) refl

  module _
      (reads_back : (value : Value) (payload : Bytes)
        → to_vec value ≡ some payload
        → (is_utf8 payload ≡ true) × (from_str payload ≡ some value)) where
    read_frame-payload :
        (value : Value) (payload rest : Bytes)
        → to_vec value ≡ some payload
        → ltb max_frame_size (length payload) ≡ false
        → read_frame (to_le_bytes (length payload % 2 ^ 32) ++ (payload ++ rest)) ≡ ok (value, rest)
    unfolding read_frame parse_payload
    read_frame-payload value payload rest texts short =
        let (utf8, parses) = reads_back value payload texts in
        let whole : length payload % 4294967296 ≡ length payload = ground arith in
        let header = read_length-to_le_bytes (length payload) (payload ++ rest) (ground arith) in
        let parts = split_at-append payload rest in
        rw (whole, header, short, parts, utf8, parses) refl

    write_frame-read :
        (writer out : Bytes) (value : Value)
        → write_frame writer value ≡ ok out
        → (frame : Bytes) × (out ≡ writer ++ frame)
          × ((rest : Bytes) → read_frame (frame ++ rest) ≡ ok (value, rest))
    unfolding write_frame
    write_frame-read writer out value written = elim (Option-cases (to_vec value)) [
      | inl missing ↦ absurd (ground arith)
      | inr (payload, texts) ↦ elim (Bool-cases (ltb max_frame_size (length payload))) [
        | inl long ↦ absurd (ground arith)
        | inr short ↦ (
          to_le_bytes (length payload % 2 ^ 32) ++ payload,
          sym (ok_inj (rw (texts, short) at written))
              ∙ append_assoc writer (to_le_bytes (length payload % 2 ^ 32)) payload,
          λ rest.
              ap read_frame (append_assoc (to_le_bytes (length payload % 2 ^ 32)) payload rest)
              ∙ read_frame-payload value payload rest texts short,
        )
      ]
    ]

    -- Frames that are written one after the other, whatever follows them, are read back one after the
    -- other as the values they were made of, and what follows is left. This is for a JSON library whose
    -- texts are UTF-8 and read back as what they were written for.
    pub write_each-read :
        (values : List Value) (writer out : Bytes)
        → write_each writer values ≡ ok out
        → (frames : Bytes) × (out ≡ writer ++ frames)
          × ((rest : Bytes) → read_each (length values) (frames ++ rest) ≡ ok (values, rest))
    write_each-read [] writer out written =
        ([], sym (ok_inj written) ∙ sym (append-nil writer), λ rest. refl)
    write_each-read (v ∷ vs) writer out written = elim (Result-cases (write_frame writer v)) [
      | inr (e, failed) ↦ absurd (ground arith)
      | inl (next, first) ↦
          let (frame, next_is, reads) = write_frame-read writer next v first in
          let (frames, out_is, reads_rest) = write_each-read vs next out (rw first at written) in
          (
            frame ++ frames,
            out_is ∙ ap (λ x. x ++ frames) next_is ∙ append_assoc writer frame frames,
            λ rest.
                read_step (length vs) (frame ++ frames ++ rest) v (frames ++ rest) vs rest
                  (ap read_frame (append_assoc frame frames rest) ∙ reads (frames ++ rest))
                  (reads_rest rest),
          )
    ]

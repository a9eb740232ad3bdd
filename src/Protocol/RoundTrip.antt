-- ===== src/Protocol/RoundTrip.antt =====
-- `decode_record` against an independent description of the 36 bytes on the wire.
use netft_cpp.Base.{
  ℕ, suc, ◌+◌, ◌≤◌, ◌≡◌, ◌≢◌, ◌↔◌, ◌⊎◌, refl, sym, ap, [], ◌∷◌, ◌++◌, Option, none, some, ok, err,
  All, length, length-drop, drop, arith,
}
use netft_cpp.Base.Text.{Bytes}
use netft_cpp.Protocol.{
  RawRecord, ProtocolError, wrong_size, null_data, read_u32, read_i32, read_record, decode_record,
}
use netft_cpp.Protocol.BigEndian.{
  IsByte, IsWord, IsInt32, be32, to_word, read_u32-be32, be32-read_u32, read_i32-be32,
  to_word-read_i32,
}

-- Nine big-endian words: the sequence numbers, the status, the forces and the torques.
abbrev pub wire : RawRecord → Bytes
wire r =
    be32 r.rdt_sequence
    ++ (be32 r.ft_sequence
        ++ (be32 r.status
            ++ (be32 (to_word r.fx)
                ++ (be32 (to_word r.fy)
                    ++ (be32 (to_word r.fz)
                        ++ (be32 (to_word r.tx)
                            ++ (be32 (to_word r.ty) ++ (be32 (to_word r.tz) ++ []))))))))

-- The fields fit their types.
pub record IsRaw (r : RawRecord) : Type 0 where
  pub rdt_word : IsWord r.rdt_sequence
  pub ft_word : IsWord r.ft_sequence
  pub status_word : IsWord r.status
  pub fx_int : IsInt32 r.fx
  pub fy_int : IsInt32 r.fy
  pub fz_int : IsInt32 r.fz
  pub tx_int : IsInt32 r.tx
  pub ty_int : IsInt32 r.ty
  pub tz_int : IsInt32 r.tz

read_record-wire : (r : RawRecord) (rest : Bytes) → IsRaw r → read_record (wire r ++ rest) ≡ r
unfolding read_record
read_record-wire r rest v = cc (
  read_u32-be32 r.rdt_sequence (drop 4 (wire r ++ rest)) v.rdt_word,
  read_u32-be32 r.ft_sequence (drop 8 (wire r ++ rest)) v.ft_word,
  read_u32-be32 r.status (drop 12 (wire r ++ rest)) v.status_word,
  read_i32-be32 r.fx (drop 16 (wire r ++ rest)) v.fx_int,
  read_i32-be32 r.fy (drop 20 (wire r ++ rest)) v.fy_int,
  read_i32-be32 r.fz (drop 24 (wire r ++ rest)) v.fz_int,
  read_i32-be32 r.tx (drop 28 (wire r ++ rest)) v.tx_int,
  read_i32-be32 r.ty (drop 32 (wire r ++ rest)) v.ty_int,
  read_i32-be32 r.tz rest v.tz_int,
)

-- A record whose fields fit their types is decoded from its 36 bytes, whatever stands behind them in
-- the buffer.
pub decode_record-wire :
    (r : RawRecord) (rest : Bytes) → IsRaw r → decode_record (some (wire r ++ rest)) 36 ≡ ok r
unfolding decode_record
decode_record-wire r rest v = ap ok (read_record-wire r rest v)

-- One word read off the front of a list of bytes that is long enough.
record Word (bytes : Bytes) : Type 0 where
  splits : be32 (read_u32 bytes) ++ drop 4 bytes ≡ bytes
  word : IsWord (read_u32 bytes)
  signed : to_word (read_i32 bytes) ≡ read_u32 bytes
  int : IsInt32 (read_i32 bytes)

All-drop : (n : ℕ) (bytes : Bytes) → All IsByte bytes → All IsByte (drop n bytes)
All-drop ℕ.zero bytes h = h
All-drop (suc n) [] h = h
All-drop (suc n) (b ∷ bytes) h = All-drop n bytes h.1

Word-at : (n : ℕ) (bytes : Bytes) → All IsByte bytes → n + 4 ≤ length bytes → Word (drop n bytes)
Word-at n bytes h l =
    let (s, w) =
      be32-read_u32 (drop n bytes) (All-drop n bytes h) (omega (arith, length-drop n bytes)) in
    let (t, i) = to_word-read_i32 (drop n bytes) w in
    record { splits = s; word = w; signed = t; int = i }

drop-four : (n : ℕ) (bytes : Bytes) → drop 4 (drop n bytes) ≡ drop (suc (suc (suc (suc n)))) bytes
drop-four ℕ.zero bytes = refl
drop-four (suc n) [] = refl
drop-four (suc n) (b ∷ bytes) = drop-four n bytes

drop_all : (n : ℕ) (bytes : Bytes) → length bytes ≤ n → drop n bytes ≡ []
drop_all ℕ.zero [] h = refl
drop_all ℕ.zero (b ∷ bytes) h = absurd (omega arith)
drop_all (suc n) [] h = refl
drop_all (suc n) (b ∷ bytes) h = drop_all n bytes (omega arith)

-- The word at `n`, and then the rest.
append-read_u32 :
    (n : ℕ) (bytes tail : Bytes)
    → Word (drop n bytes)
    → tail ≡ drop (suc (suc (suc (suc n)))) bytes
    → be32 (read_u32 (drop n bytes)) ++ tail ≡ drop n bytes
append-read_u32 n bytes tail w e = rw (e, ← drop-four n bytes) w.splits

append-read_i32 :
    (n : ℕ) (bytes tail : Bytes)
    → Word (drop n bytes)
    → tail ≡ drop (suc (suc (suc (suc n)))) bytes
    → be32 (to_word (read_i32 (drop n bytes))) ++ tail ≡ drop n bytes
append-read_i32 n bytes tail w e = rw w.signed (append-read_u32 n bytes tail w e)

module _ (bytes : Bytes) (h : All IsByte bytes) (l : length bytes ≡ 36) where
  word : (n : ℕ) → n + 4 ≤ 36 → Word (drop n bytes)
  word n le = Word-at n bytes h (omega arith)

  wire-read_record : wire (read_record bytes) ≡ bytes
  unfolding read_record
  wire-read_record = append-read_u32 0 bytes _ (word 0 (omega arith)) (
      append-read_u32 4 bytes _ (word 4 (omega arith)) (
        append-read_u32 8 bytes _ (word 8 (omega arith)) (
          append-read_i32 12 bytes _ (word 12 (omega arith)) (
            append-read_i32 16 bytes _ (word 16 (omega arith)) (
              append-read_i32 20 bytes _ (word 20 (omega arith)) (
                append-read_i32 24 bytes _ (word 24 (omega arith)) (
                  append-read_i32 28 bytes _ (word 28 (omega arith)) (
                    append-read_i32 32 bytes _ (word 32 (omega arith))
                      (sym (drop_all 36 bytes (omega arith)))))))))))

  read_record-IsRaw : IsRaw (read_record bytes)
  unfolding read_record
  read_record-IsRaw = record {
    rdt_word = (word 0 (omega arith)).word;
    ft_word = (word 4 (omega arith)).word;
    status_word = (word 8 (omega arith)).word;
    fx_int = (word 12 (omega arith)).int;
    fy_int = (word 16 (omega arith)).int;
    fz_int = (word 20 (omega arith)).int;
    tx_int = (word 24 (omega arith)).int;
    ty_int = (word 28 (omega arith)).int;
    tz_int = (word 32 (omega arith)).int;
  }

  -- Every datagram of 36 bytes is decoded, to a record whose fields fit their types and whose
  -- description on the wire is that datagram.
  pub decode_record_total :
      (r : RawRecord) × (decode_record (some bytes) 36 ≡ ok r) × IsRaw r × (wire r ≡ bytes)
  unfolding decode_record
  decode_record_total = (read_record bytes, refl, read_record-IsRaw, wire-read_record)

-- A record is refused exactly when the size is not 36 or the pointer is null, and the size is
-- tested first.
pub decode_record_refuses :
    (data_ : Option Bytes) (size : ℕ) (e : ProtocolError)
    → (decode_record data_ size ≡ err e)
      ↔ (((size ≢ 36) × (e ≡ wrong_size size)) ⊎ ((size ≡ 36) × (data_ ≡ none) × (e ≡ null_data)))
unfolding decode_record
decode_record_refuses data_ size e = (λ h. ground arith, λ h. ground arith)

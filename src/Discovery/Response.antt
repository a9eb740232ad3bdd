-- ===== src/Discovery/Response.antt =====
-- What `append_response` stores, whatever libcurl hands over.
use native.Mathlib.Nat.{div-lt_iff_lt-mul, mul_comm}
use netft_cpp.Base.{
  ℕ, zero, suc, ◌+◌, ◌-◌, ◌*◌, ◌/◌, ◌^◌, ◌≤◌, ◌<◌, ◌≡◌, ◌↔◌, inl, inr, refl, sym, subst, ◌∙◌, arith,
  Bool, true, false, not, ◌&&◌, List, [], ◌∷◌, ◌++◌, ltb, ltb→lt, lt→ltb, ◌==◌, u64, length,
  length-append, All, Bool-cases,
}
use mathlib.Core.List.{append_assoc, append-nil}
use netft_cpp.Base.Text.{Bytes}
use netft_cpp.Discovery.{
  Chunk, ResponseBuffer, empty_response, maximum_response_bytes, append_response, append_all,
}

-- The bytes of a call are as many as it names.
abbrev pub IsChunk : Chunk → Type 0
IsChunk chunk = length chunk.bytes ≡ chunk.size * chunk.count

abbrev pub Stored : Chunk → Type 0
Stored chunk = chunk.no_memory ≡ false

abbrev pub all_bytes : List Chunk → Bytes
all_bytes [] = []
all_bytes (chunk ∷ chunks) = chunk.bytes ++ all_bytes chunks

abbrev pub Clean : ResponseBuffer → Type 0
Clean response = (response.too_large ≡ false) × (response.write_failed ≡ false)

-- The test for overflow of `size * count` in 64 bits.
overflow_iff :
    (size count : ℕ)
    → ((not (size == 0) && ltb ((2 ^ 64 - 1) / size) count) ≡ true) ↔ (2 ^ 64 ≤ size * count)
overflow_iff zero count =
    (λ e. ground arith, λ h. let never : 2 ^ 64 ≤ 0 = omega (arith, h) in ground arith)
overflow_iff (suc n) count =
    let (f, g) = div-lt_iff_lt-mul {k = suc n} {x = 2 ^ 64 - 1} {y = count} (omega arith) in
    (
      λ e.
          let test : ltb ((2 ^ 64 - 1) / suc n) count ≡ true = ground (arith, e) in
          let below = f (ltb→lt ((2 ^ 64 - 1) / suc n) count test) in
          omega (arith, below, mul_comm (suc n) count),
      λ h.
          let test =
            lt→ltb ((2 ^ 64 - 1) / suc n) count (g (omega (arith, h, mul_comm (suc n) count))) in
          ground (arith, test),
    )

no_overflow :
    (size count : ℕ)
    → (not (size == 0) && ltb ((2 ^ 64 - 1) / size) count) ≡ false
    → size * count < 2 ^ 64
no_overflow size count n = elim (Bool-cases (ltb (size * count) (2 ^ 64))) [
  | inl y ↦ ltb→lt (size * count) (2 ^ 64) y
  | inr m ↦
      let large : 2 ^ 64 ≤ size * count = ground (arith, m) in
      let test = (overflow_iff size count).1 large in cc
]

-- What a call does, by the bytes that it brings.
abbrev stored : Chunk → ResponseBuffer → Bool → Bool → ResponseBuffer
stored chunk response true full = record response { too_large = true }
stored chunk response false true = record response { write_failed = true }
stored chunk response false false = record response { body = response.body ++ chunk.bytes }

append_response-stored :
    (chunk : Chunk) (response : ResponseBuffer)
    → IsChunk chunk
    → length response.body ≤ maximum_response_bytes
    → (append_response chunk response).0
      ≡ stored chunk response
          (ltb maximum_response_bytes (length response.body + length chunk.bytes))
          chunk.no_memory
unfolding append_response
append_response-stored chunk response whole small =
    let n = length response.body in
    let k = length chunk.bytes in
    let overflows = not (chunk.size == 0) && ltb ((2 ^ 64 - 1) / chunk.size) chunk.count in
    let (f, g) = overflow_iff chunk.size chunk.count in
    elim (Bool-cases overflows) [
      | inl y ↦
          let big : ltb maximum_response_bytes (n + k) ≡ true =
            lt→ltb maximum_response_bytes (n + k) (omega (arith, whole, f y)) in
          simp (y, big) refl
      | inr o ↦
          let fits : u64 (chunk.size * chunk.count) ≡ k =
            omega (arith, whole, no_overflow chunk.size chunk.count o) in
          elim (Bool-cases (ltb maximum_response_bytes (n + k))) [
            | inl y ↦
                let big : ltb (maximum_response_bytes - n) k ≡ true = ground (arith, y, small) in
                simp (o, fits, y, big) refl
            | inr m ↦
                let fine : ltb (maximum_response_bytes - n) k ≡ false = ground (arith, m, small) in
                elim (Bool-cases chunk.no_memory) [
                  | inl z ↦ simp (o, fits, m, fine, z) refl
                  | inr z ↦ simp (o, fits, m, fine, z) refl
                ]
          ]
    ]

-- `Clean` before and after, what is stored, and the room for it
abbrev Takes : ResponseBuffer → List Chunk → Type 0
Takes response chunks =
    Clean response
    × All Stored chunks
    × (length response.body + length (all_bytes chunks) ≤ maximum_response_bytes)

abbrev Grows : ResponseBuffer → ResponseBuffer → List Chunk → Type 0
Grows after response chunks =
    (length after.body ≤ maximum_response_bytes)
    × (Clean after → Takes response chunks × (after.body ≡ response.body ++ all_bytes chunks))
    × (Takes response chunks → Clean after × (after.body ≡ response.body ++ all_bytes chunks))

stored-small :
    (chunk : Chunk) (response : ResponseBuffer) (big full : Bool)
    → ltb maximum_response_bytes (length response.body + length chunk.bytes) ≡ big
    → length response.body ≤ maximum_response_bytes
    → length (stored chunk response big full).body ≤ maximum_response_bytes
stored-small chunk response true full e small = small
stored-small chunk response false true e small = small
stored-small chunk response false false e small =
    ground (arith, length-append response.body chunk.bytes)

-- by whether the call brings too much, and by whether the body can grow
stored-Grows :
    (chunk : Chunk) (chunks : List Chunk) (response after : ResponseBuffer) (big full : Bool)
    → ltb maximum_response_bytes (length response.body + length chunk.bytes) ≡ big
    → chunk.no_memory ≡ full
    → Grows after (stored chunk response big full) chunks
    → Grows after response (chunk ∷ chunks)
stored-Grows chunk chunks response after true full e z (l, f, g) = (
  l,
  λ c. let never = (f c).0.0.0 in cc,
  λ t.
      let room = t.2 in
      let sum = length-append chunk.bytes (all_bytes chunks) in
      let never : ltb maximum_response_bytes (length response.body + length chunk.bytes) ≡ false =
        ground arith in
      cc,
)
stored-Grows chunk chunks response after false true e z (l, f, g) =
    (l, λ c. let never = (f c).0.0.1 in cc, λ t. let never = t.1.0 in cc)
stored-Grows chunk chunks response after false false e z (l, f, g) =
    let sum = length-append chunk.bytes (all_bytes chunks) in
    let more = length-append response.body chunk.bytes in
    let joined = append_assoc response.body chunk.bytes (all_bytes chunks) in
    (
      l,
      λ c.
          let ((clean, kept, room), whole) = f c in
          ((clean, (z, kept), omega (arith, room, sum, more)), whole ∙ joined),
      λ t.
          let (clean, kept, room) = t in
          let (after_clean, whole) = g (clean, kept.1, omega (arith, room, sum, more)) in
          (after_clean, whole ∙ joined),
    )

append_all-Grows :
    (chunks : List Chunk) (response : ResponseBuffer)
    → All IsChunk chunks
    → length response.body ≤ maximum_response_bytes
    → Grows (append_all chunks response) response chunks
unfolding append_all
append_all-Grows [] response whole small = (
  small,
  λ c. ((c, tt, omega (arith, small)), sym (append-nil response.body)),
  λ t. (t.0, sym (append-nil response.body)),
)
append_all-Grows (chunk ∷ chunks) response (w, whole) small =
    let big = ltb maximum_response_bytes (length response.body + length chunk.bytes) in
    let next = stored chunk response big chunk.no_memory in
    let h =
      append_all-Grows chunks next whole
        (stored-small chunk response big chunk.no_memory refl small) in
    subst (λ (r : ResponseBuffer). Grows (append_all chunks r) response (chunk ∷ chunks))
      (sym (append_response-stored chunk response w small))
      (stored-Grows chunk chunks response (append_all chunks next) big chunk.no_memory refl refl h)

-- However libcurl cuts up a page, the stored body never has more than 65536 bytes; and neither flag is
-- set at the end exactly when memory never ran out, the page has at most 65536 bytes, and the body is
-- the whole page.
pub append_all_whole :
    (chunks : List Chunk)
    → All IsChunk chunks
    → let response = append_all chunks empty_response in
      (length response.body ≤ maximum_response_bytes)
      × (Clean response ↔ (
          All Stored chunks
          × (length (all_bytes chunks) ≤ maximum_response_bytes)
          × (response.body ≡ all_bytes chunks)))
append_all_whole chunks whole =
    let (l, f, g) = append_all-Grows chunks empty_response whole (omega arith) in
    (
      l,
      (
        λ c. let ((clean, kept, room), body) = f c in (kept, omega (arith, room), body),
        λ t. let (kept, room, body) = t in (g ((refl, refl), kept, omega (arith, room))).0,
      ),
    )

pub append_all_fits :
    (chunks : List Chunk)
    → All IsChunk chunks
    → All Stored chunks
    → length (all_bytes chunks) ≤ maximum_response_bytes
    → let response = append_all chunks empty_response in
      Clean response × (response.body ≡ all_bytes chunks)
append_all_fits chunks whole kept room =
    let (l, f, g) = append_all-Grows chunks empty_response whole (omega arith) in
    g ((refl, refl), kept, omega (arith, room))

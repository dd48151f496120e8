-- ===== src/Message/PoolHandles.antt =====
-- The pool handle parameter, against its layout in a message.
use mathlib.Core.List.{append_assoc}
use rsplib.Base.{
  ℕ, ◌+◌, ◌-◌, ◌/◌, ◌%◌, ◌^◌, ◌<◌, ◌≤◌, List, [], ◌∷◌, ◌++◌, ◌≡◌, ◌⊎◌, inl, inr, refl, sym, ap, ◌∙◌,
  arith, none, some, true, false, Bool-cases, ltb, leb, leb→le, length, take, drop, get_or,
  replicate, length-append, length-replicate,
}
use rsplib.PoolHandle.{max_poolhandlesize}
use rsplib.PoolHandle.Sizes.{new-some, new-none}
use rsplib.Message.{RSerPoolMessage, get_padding, word_at}
use rsplib.Message.Layout.{IsMessage, get_or-append, drop-append, take-append}
use rsplib.Message.Skipping.{within, no_ltb, no_leb, get_space-IsMessage, get_next_tlv_lem}
use rsplib.Message.Tlv.{
  finished, mark_oversized, check_begin_tlv, check_finish_tlv, take_pool_handle,
  scan_pool_handle_parameter, no_header,
}

-- The bytes of the parameter: its type, its length, the handle, and zeros up to a multiple of 4
abbrev pub pool_handle_header : ℕ → List ℕ
pool_handle_header n = 0 ∷ 9 ∷ (4 + n) / 256 ∷ (4 + n) % 256 ∷ []

abbrev pub padding_of : ℕ → ℕ
padding_of n = (4 - n % 4) % 4

abbrev pub pool_handle_tlv : List ℕ → List ℕ
pool_handle_tlv handle =
    pool_handle_header (length handle) ++ (handle ++ replicate (padding_of (length handle)) 0)

pub get_padding_lem : (n : ℕ) → get_padding (4 + n) 4 ≡ padding_of n
unfolding get_padding
get_padding_lem n = ground arith

-- A handle of the given length at the position, behind its header at `start`
record IsAt (m : RSerPoolMessage) (start : ℕ) (handle : List ℕ) : Type 0 where
  message : IsMessage m
  at_handle : m.position ≡ start + 4
  length_field : word_at m.buffer (start + 2) ≡ 4 + length handle
  content : take (length handle) (drop m.position m.buffer) ≡ handle
  padded : m.position + length handle + padding_of (length handle) ≤ m.buffer_size
  not_empty : 0 < length handle
  short_field : length handle < 2 ^ 16

check_finish_tlv_lem :
    (m : RSerPoolMessage) (start : ℕ) (n : ℕ)
    → IsMessage m
    → m.position ≡ start + 4 + n
    → word_at m.buffer (start + 2) ≡ 4 + n
    → m.position + padding_of n ≤ m.buffer_size
    → (m' : RSerPoolMessage) × (check_finish_tlv m start ≡ (true, m'))
      × (m'.position ≡ m.position + padding_of n)
      × (m'.error ≡ m.error)
unfolding check_finish_tlv
check_finish_tlv_lem m start n v at w fits =
    let p = get_padding_lem n in
    let end = start + (4 + n) + padding_of n in
    let small = v.small in
    let a : ltb end m.position ≡ false = within m.position end (omega arith) in
    elim (Bool-cases (ltb m.position end)) [
      | inr f ↦
          (finished m, rw (w, p, a, f) refl, (let k = no_ltb m.position end f in omega arith), refl)
      | inl t ↦
          let d : end - m.position ≡ padding_of n = omega arith in
          elim (get_space-IsMessage m (end - m.position) v (omega arith)) [
            | inl (q, k) ↦ (
              finished (record m { position = m.position + (end - m.position) }),
              rw (w, p, a, t, q) refl,
              omega arith,
              refl,
            )
            | inr (q, o) ↦ absurd (omega arith)
          ]
    ]

mark_oversized_lem : (n : ℕ) (m : RSerPoolMessage) → n ≤ max_poolhandlesize → mark_oversized n m ≡ m
unfolding mark_oversized
mark_oversized_lem n m h = rw (within n max_poolhandlesize h) refl

take_pool_handle_lem :
    (m : RSerPoolMessage) (start : ℕ) (handle : List ℕ)
    → IsAt m start handle
    → ((length handle ≤ max_poolhandlesize)
        × ((m' : RSerPoolMessage) × (take_pool_handle m start (length handle)
              ≡ some (record { accepted = true; message = m'; pool_handle = some handle }))
            × (m'.position ≡ m.position + length handle + padding_of (length handle))
            × (m'.error ≡ m.error)))
      ⊎ ((max_poolhandlesize < length handle) × (take_pool_handle m start (length handle) ≡ none))
unfolding take_pool_handle
take_pool_handle_lem m start handle k =
    let n = length handle in
    let fits = k.padded in
    let size = k.short_field in
    elim (get_space-IsMessage m n k.message (omega arith)) [
      | inr (q, o) ↦ absurd (omega arith)
      | inl (q, v) ↦
          let m₁ : RSerPoolMessage = record m { position = m.position + n } in
          let start_at = k.at_handle in
          elim (Bool-cases (leb n max_poolhandlesize)) [
            | inl t ↦
                let small : mark_oversized n m₁ ≡ m₁ =
                  mark_oversized_lem n m₁ (leb→le n max_poolhandlesize t) in
                let (m', r, p, e) =
                  check_finish_tlv_lem m₁ start n v (omega arith) k.length_field (omega arith) in
                inl (
                  leb→le n max_poolhandlesize t,
                  (
                    m',
                    rw
                        (
                          take_pool_handle,
                          q,
                          k.content,
                          new-some handle k.not_empty (leb→le n max_poolhandlesize t),
                          small,
                          r,
                        )
                        refl,
                    p,
                    e,
                  ),
                )
            | inr f ↦ inr (
              no_leb n max_poolhandlesize f,
              rw
                  (
                    take_pool_handle,
                    q,
                    k.content,
                    new-none handle k.not_empty (no_leb n max_poolhandlesize f),
                  )
                  refl,
            )
          ]
    ]

-- The parameter stands at the position of the message.
module _ (before handle behind : List ℕ) (m : RSerPoolMessage) (v : IsMessage m)
    (layout : m.buffer ≡ before ++ (pool_handle_tlv handle ++ behind))
    (at : m.position ≡ length before) where
  byte_of_tlv :
      (i : ℕ) → get_or m.buffer (m.position + i) 0 ≡ get_or (pool_handle_tlv handle ++ behind) i 0
  byte_of_tlv i =
      ap (λ bs. get_or bs (m.position + i) 0) layout
      ∙ (ap (λ p. get_or (before ++ (pool_handle_tlv handle ++ behind)) (p + i) 0) at
          ∙ get_or-append before (pool_handle_tlv handle ++ behind) i)

  type_field : word_at m.buffer m.position ≡ 9
  type_field =
      let e : m.position + 0 ≡ m.position = omega arith in
      let first = ap (λ i. get_or m.buffer i 0) (sym e) ∙ byte_of_tlv 0 in
      omega (arith, first, byte_of_tlv 1)

  length_of_tlv : word_at m.buffer (m.position + 2) ≡ 4 + length handle
  length_of_tlv =
      let e : m.position + 2 + 1 ≡ m.position + 3 = omega arith in
      let last = ap (λ i. get_or m.buffer i 0) e ∙ byte_of_tlv 3 in
      omega (arith, byte_of_tlv 2, last)

  content_of_tlv : take (length handle) (drop (m.position + 4) m.buffer) ≡ handle
  content_of_tlv =
      let header = pool_handle_header (length handle) in
      let padding : List ℕ = replicate (padding_of (length handle)) 0 in
      let split : m.buffer ≡ (before ++ header) ++ (handle ++ (padding ++ behind)) =
        layout ∙ simp append_assoc in
      let n : m.position + 4 ≡ length (before ++ header) =
        omega (arith, at, length-append before header) in
      ap (λ bs. take (length handle) (drop (m.position + 4) bs)) split
      ∙ (ap (take (length handle))
            (drop-append (before ++ header) (handle ++ (padding ++ behind)) (m.position + 4) n)
          ∙ take-append handle (padding ++ behind) (length handle) refl)

  size_of_tlv :
      (length (pool_handle_tlv handle) ≡ 4 + length handle + padding_of (length handle))
      × (m.position + 4 + length handle + padding_of (length handle) ≤ m.buffer_size)
  size_of_tlv =
      let padding : List ℕ = replicate (padding_of (length handle)) 0 in
      let a : length (pool_handle_tlv handle) ≡ 4 + length handle + padding_of (length handle) =
        omega (
          arith,
          length-append handle padding,
          length-replicate {A = ℕ} (padding_of (length handle)) 0,
        ) in
      (
        a,
        omega (
          arith,
          ap length layout,
          v.whole,
          length-append before (pool_handle_tlv handle ++ behind),
          length-append (pool_handle_tlv handle) behind,
        ),
      )

-- In a message with the parameter of a pool handle of at least one byte at its position,
-- scanPoolHandleParameter accepts a handle of up to 32 bytes, stores just its bytes, and goes on
-- behind the padding, with the error code as before. For any longer handle it fails the CHECK of the
-- size, which ends the program.
pub scan_pool_handle_parameter-layout :
    (before handle behind : List ℕ) (m : RSerPoolMessage)
    → IsMessage m
    → m.buffer ≡ before ++ (pool_handle_tlv handle ++ behind)
    → m.position ≡ length before
    → 0 < length handle
    → length handle < 2 ^ 16 - 4
    → ((length handle ≤ max_poolhandlesize)
        × ((m' : RSerPoolMessage) × (scan_pool_handle_parameter m
              ≡ some (record { accepted = true; message = m'; pool_handle = some handle }))
            × (m'.position ≡ length before + length (pool_handle_tlv handle))
            × (m'.error ≡ m.error)))
      ⊎ ((max_poolhandlesize < length handle) × (scan_pool_handle_parameter m ≡ none))
unfolding scan_pool_handle_parameter check_begin_tlv
scan_pool_handle_parameter-layout before handle behind m v layout at nonempty short =
    let n = length handle in
    let type = type_field before handle behind m v layout at in
    let len = length_of_tlv before handle behind m v layout at in
    let (size, room) = size_of_tlv before handle behind m v layout at in
    let next = get_next_tlv_lem m no_header v (omega arith) (omega arith) in
    let m₁ : RSerPoolMessage = record m {
      position = m.position + 4;
      offending_parameter_tlv = some m.position;
      offending_parameter_tlv_length = 4 + n;
    } in
    let place : IsAt m₁ m.position handle = record {
      message = record { whole = v.whole; bytes = v.bytes; small = v.small; inside = omega arith };
      at_handle = refl;
      length_field = len;
      content = content_of_tlv before handle behind m v layout at;
      padded = room;
      not_empty = nonempty;
      short_field = omega arith;
    } in
    let long : ltb (4 + n) 4 ≡ false = within 4 (4 + n) (omega arith) in
    let rest : 4 + n - 4 ≡ n = omega arith in
    let some_bytes : ltb n 1 ≡ false = within 1 n (omega arith) in
    elim (take_pool_handle_lem m₁ m.position handle place) [
      | inl (l, (m', q, p, e)) ↦ inl (
        l,
        (
          m',
          rw (scan_pool_handle_parameter, check_begin_tlv, next, type, len, long, rest, some_bytes)
              q,
          omega arith,
          e,
        ),
      )
      | inr (l, q) ↦ inr (
        l,
        rw (scan_pool_handle_parameter, check_begin_tlv, next, type, len, long, rest, some_bytes) q,
      )
    ]

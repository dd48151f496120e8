-- ===== src/Message/Creating.antt =====
-- The pool handle parameter that is created has the layout that the parser reads.
use mathlib.Core.List.{append_assoc}
use rsplib.Base.{
  le→leb, ℕ, ◌+◌, ◌-◌, ◌/◌, ◌%◌, ◌^◌, ◌<◌, ◌≤◌, List, [], ◌∷◌, ◌++◌, ◌≡◌, refl, sym, ap, ◌∙◌, arith,
  some, length, drop, replicate, length-append, length-replicate,
}
use rsplib.Message.{RSerPoolMessage, get_space}
use rsplib.Message.Create.{
  created, write, network_word, begin_tlv, pad_tlv, finish_tlv, put_pool_handle,
  create_pool_handle_parameter,
}
use rsplib.Message.Layout.{drop-append, take-append}
use rsplib.Message.PoolHandles.{pool_handle_header, pool_handle_tlv, padding_of, get_padding_lem}

write_lem :
    (before old behind xs : List ℕ) (p : ℕ)
    → p ≡ length before
    → length old ≡ length xs
    → write p xs (before ++ (old ++ behind)) ≡ before ++ (xs ++ behind)
unfolding write
write_lem before old behind xs p e l =
    let all : before ++ (old ++ behind) ≡ (before ++ old) ++ behind = simp append_assoc in
    let n : p + length xs ≡ length (before ++ old) =
      omega (arith, e, l, length-append before old) in
    let front = take-append before (old ++ behind) p e in
    let back =
      ap (drop (p + length xs)) all ∙ drop-append (before ++ old) behind (p + length xs) n in
    ap (λ ys. ys ++ (xs ++ drop (p + length xs) (before ++ (old ++ behind)))) front
    ∙ ap (λ ys. before ++ (xs ++ ys)) back

space :
    (m : RSerPoolMessage) (n : ℕ)
    → m.buffer_size < 2 ^ 62
    → m.position + n ≤ m.buffer_size
    → get_space m n ≡ some (record m { position = m.position + n })
unfolding get_space
space m n s h =
    let e : (m.position + n) % 2 ^ 64 ≡ m.position + n = omega arith in
    rw (e, le→leb (m.position + n) m.buffer_size h) refl

-- The buffer in its parts: room for the header, the handle and the padding
module _ (before room_header room_handle room_padding behind handle : List ℕ) (m : RSerPoolMessage)
    (small : m.buffer_size < 2 ^ 62) (size : length m.buffer ≡ m.buffer_size)
    (at : m.position ≡ length before)
    (parts : m.buffer ≡ before ++ (room_header ++ (room_handle ++ (room_padding ++ behind))))
    (header_fits : length room_header ≡ 4) (handle_fits : length room_handle ≡ length handle)
    (padding_fits : length room_padding ≡ padding_of (length handle))
    (short : length handle < 2 ^ 16 - 4) where
  room : m.position + 4 + length handle + padding_of (length handle) ≤ m.buffer_size
  room =
      let a = length-append before (room_header ++ (room_handle ++ (room_padding ++ behind))) in
      let b = length-append room_header (room_handle ++ (room_padding ++ behind)) in
      let c = length-append room_handle (room_padding ++ behind) in
      let d = length-append room_padding behind in
      omega (arith, size, at, ap length parts, header_fits, handle_fits, padding_fits)

  abbrev open_header : List ℕ
  open_header = 0 ∷ 9 ∷ 255 ∷ 255 ∷ []

  abbrev zeros : List ℕ
  zeros = replicate (padding_of (length handle)) 0

  abbrev rest : List ℕ
  rest = room_padding ++ behind

  abbrev length_field : List ℕ
  length_field = (4 + length handle) / 256 ∷ (4 + length handle) % 256 ∷ []

  -- The buffer after each of the writes
  abbrev begun : List ℕ
  begun = before ++ (open_header ++ (room_handle ++ rest))

  abbrev filled : List ℕ
  filled = before ++ (open_header ++ (handle ++ rest))

  abbrev closed : List ℕ
  closed = before ++ (pool_handle_header (length handle) ++ (handle ++ rest))

  abbrev padded : List ℕ
  padded = before ++ (pool_handle_tlv handle ++ behind)

  write-header : write m.position open_header m.buffer ≡ begun
  write-header =
      ap (write m.position open_header) parts
      ∙ write_lem before room_header (room_handle ++ rest) open_header m.position at header_fits

  write-handle : write (m.position + 4) handle begun ≡ filled
  write-handle =
      let p : m.position + 4 ≡ length (before ++ open_header) =
        omega (arith, at, length-append before open_header) in
      ap (write (m.position + 4) handle)
        (sym (append_assoc before open_header (room_handle ++ rest)))
      ∙ (write_lem (before ++ open_header) room_handle rest handle (m.position + 4) p handle_fits
          ∙ append_assoc before open_header (handle ++ rest))

  write-length : write (m.position + 2) (network_word (4 + length handle)) filled ≡ closed
  write-length =
      let type : List ℕ = 0 ∷ 9 ∷ [] in
      let open_length : List ℕ = 255 ∷ 255 ∷ [] in
      let e : (4 + length handle) / 256 % 256 ≡ (4 + length handle) / 256 = omega arith in
      let word : network_word (4 + length handle) ≡ length_field =
        ap (λ i. i ∷ (4 + length handle) % 256 ∷ []) e in
      let p : m.position + 2 ≡ length (before ++ type) =
        omega (arith, at, length-append before type) in
      ap (λ xs. write (m.position + 2) xs filled) word
      ∙ (ap (write (m.position + 2) length_field)
            (sym (append_assoc before type (open_length ++ (handle ++ rest))))
          ∙ (write_lem (before ++ type) open_length (handle ++ rest) length_field (m.position + 2) p
                refl
              ∙ append_assoc before type (length_field ++ (handle ++ rest))))

  write-padding : write (m.position + 4 + length handle) zeros closed ≡ padded
  write-padding =
      let end = m.position + 4 + length handle in
      let header = pool_handle_header (length handle) in
      let front : List ℕ = before ++ (header ++ handle) in
      let split : closed ≡ front ++ (room_padding ++ behind) = simp append_assoc in
      let join : front ++ (zeros ++ behind) ≡ padded = simp append_assoc in
      let p : end ≡ length front = omega (arith, at, length-append before (header ++ handle)) in
      ap (write end zeros) split
      ∙ (write_lem front room_padding behind zeros end p
            (padding_fits ∙ sym (length-replicate (padding_of (length handle)) 0))
          ∙ join)

  pub create_lem :
      (m' : RSerPoolMessage) × (create_pool_handle_parameter m handle ≡ created m')
      × (m'.buffer ≡ padded)
      × (m'.position ≡ m.position + length (pool_handle_tlv handle))
      × (m'.buffer_size ≡ m.buffer_size)
      × (m'.error ≡ m.error)
  unfolding begin_tlv put_pool_handle finish_tlv pad_tlv create_pool_handle_parameter
  create_lem =
      let n = length handle in
      let p = m.position in
      let fits = room in
      let m₁ : RSerPoolMessage = record m { buffer = begun; position = p + 4 } in
      let m₂ : RSerPoolMessage = record m { buffer = filled; position = p + 4 + n } in
      let m₃ : RSerPoolMessage = record m { buffer = closed; position = p + 4 + n } in
      let m₄ : RSerPoolMessage = record m {
        buffer = padded;
        position = p + 4 + n + padding_of n;
      } in
      let begin : begin_tlv m 9 ≡ some m₁ =
        rw (begin_tlv, space m 4 small (omega arith), write-header) refl in
      let put : put_pool_handle m₁ p handle ≡ finish_tlv m₂ p =
        rw (put_pool_handle, space m₁ n small (omega arith), write-handle) refl in
      let len : p + 4 + n - p ≡ 4 + n = omega arith in
      let finish : finish_tlv m₂ p ≡ pad_tlv m₃ (padding_of n) =
        rw (finish_tlv, len, le→leb 4 m.buffer_size (omega arith), write-length, get_padding_lem n)
          refl in
      let pad : pad_tlv m₃ (padding_of n) ≡ created m₄ =
        rw (pad_tlv, space m₃ (padding_of n) small (omega arith), write-padding) refl in
      (
        m₄,
        rw (create_pool_handle_parameter, begin) (put ∙ (finish ∙ pad)),
        refl,
        omega (arith, length-append handle zeros, length-replicate {A = ℕ} (padding_of n) 0),
        refl,
        refl,
      )

-- ===== src/Message/RoundTrip.antt =====
-- A pool handle that is written into a message is read back.
use rsplib.Base.{
  ℕ, zero, suc, ◌+◌, ◌-◌, ◌<◌, ◌≤◌, List, [], ◌∷◌, ◌++◌, ◌≡◌, inl, inr, refl, sym, ap, subst, ◌∙◌,
  arith, some, true, All, length, take, drop, replicate, length-append, length-replicate,
  length-drop, take-append-drop,
}
use rsplib.PoolHandle.{max_poolhandlesize}
use rsplib.Message.{RSerPoolMessage}
use rsplib.Message.Create.{created, create_pool_handle_parameter}
use rsplib.Message.Creating.{create_lem}
use rsplib.Message.Layout.{IsMessage}
use rsplib.Message.PoolHandles.{
  pool_handle_header, pool_handle_tlv, padding_of, scan_pool_handle_parameter-layout,
}
use rsplib.Message.Tlv.{scan_pool_handle_parameter}

abbrev pub IsByte : ℕ → Type 0
IsByte b = b < 256

bytes-append : (xs ys : List ℕ) → All IsByte xs → All IsByte ys → All IsByte (xs ++ ys)
bytes-append [] ys h k = k
bytes-append (x ∷ xs) ys h k = (h.0, bytes-append xs ys h.1 k)

bytes-take : (n : ℕ) (xs : List ℕ) → All IsByte xs → All IsByte (take n xs)
bytes-take zero xs h = tt
bytes-take (suc n) [] h = tt
bytes-take (suc n) (x ∷ xs) h = (h.0, bytes-take n xs h.1)

bytes-drop : (n : ℕ) (xs : List ℕ) → All IsByte xs → All IsByte (drop n xs)
bytes-drop zero xs h = h
bytes-drop (suc n) [] h = tt
bytes-drop (suc n) (x ∷ xs) h = bytes-drop n xs h.1

bytes-replicate : (n : ℕ) → All IsByte (replicate n 0)
bytes-replicate zero = tt
bytes-replicate (suc n) = (omega arith, bytes-replicate n)

bytes-pool_handle_tlv :
    (handle : List ℕ)
    → length handle ≤ max_poolhandlesize
    → All IsByte handle
    → All IsByte (pool_handle_tlv handle)
bytes-pool_handle_tlv handle short h =
    bytes-append (pool_handle_header (length handle))
      (handle ++ replicate (padding_of (length handle)) 0)
      (omega arith, (omega arith, (omega arith, (omega arith, tt))))
      (bytes-append handle (replicate (padding_of (length handle)) 0) h
        (bytes-replicate (padding_of (length handle))))

length-take_all : (n : ℕ) (xs : List ℕ) → n ≤ length xs → length (take n xs) ≡ n
length-take_all zero xs h = refl
length-take_all (suc n) [] h = absurd (omega arith)
length-take_all (suc n) (x ∷ xs) h = ap suc (length-take_all n xs (omega arith))

length-pool_handle_tlv :
    (handle : List ℕ)
    → length (pool_handle_tlv handle) ≡ 4 + length handle + padding_of (length handle)
length-pool_handle_tlv handle =
    let zeros : List ℕ = replicate (padding_of (length handle)) 0 in
    omega
      (arith, length-append handle zeros, length-replicate {A = ℕ} (padding_of (length handle)) 0)

-- What stands before the position, and behind the room for the parameter
abbrev front : RSerPoolMessage → List ℕ
front m = take m.position m.buffer

abbrev behind_room : RSerPoolMessage → ℕ → List ℕ
behind_room m n = drop (padding_of n) (drop n (drop 4 (drop m.position m.buffer)))

length-behind_room :
    (m : RSerPoolMessage) (n : ℕ)
    → IsMessage m
    → length (behind_room m n) ≡ m.buffer_size - m.position - 4 - n - padding_of n
length-behind_room m n v =
    let r₀ = drop m.position m.buffer in
    let r₁ = drop 4 r₀ in
    omega (
      arith,
      v.whole,
      length-drop m.position m.buffer,
      length-drop 4 r₀,
      length-drop n r₁,
      length-drop (padding_of n) (drop n r₁),
    )

created_at :
    (m : RSerPoolMessage) (handle : List ℕ)
    → IsMessage m
    → length handle ≤ max_poolhandlesize
    → m.position + length (pool_handle_tlv handle) ≤ m.buffer_size
    → (m.position ≡ length (front m))
      × ((m' : RSerPoolMessage) × (create_pool_handle_parameter m handle ≡ created m')
          × (m'.buffer ≡ front m ++ (pool_handle_tlv handle ++ behind_room m (length handle)))
          × (m'.position ≡ m.position + length (pool_handle_tlv handle))
          × (m'.buffer_size ≡ m.buffer_size)
          × (m'.error ≡ m.error))
created_at m handle v short fits =
    let n = length handle in
    let r₀ = drop m.position m.buffer in
    let r₁ = drop 4 r₀ in
    let r₂ = drop n r₁ in
    let size = length-pool_handle_tlv handle in
    let whole = v.whole in
    let inside = v.inside in
    let l₀ = length-drop m.position m.buffer in
    let l₁ = length-drop 4 r₀ in
    let l₂ = length-drop n r₁ in
    let at : m.position ≡ length (front m) =
      sym (length-take_all m.position m.buffer (omega arith)) in
    let parts : m.buffer
        ≡ front m ++ (take 4 r₀ ++ (take n r₁ ++ (take (padding_of n) r₂ ++ behind_room m n))) =
      sym (take-append-drop m.position m.buffer)
      ∙ ap (λ ys. front m ++ ys)
          (sym (take-append-drop 4 r₀)
            ∙ ap (λ ys. take 4 r₀ ++ ys)
                (sym (take-append-drop n r₁)
                  ∙ ap (λ ys. take n r₁ ++ ys) (sym (take-append-drop (padding_of n) r₂)))) in
    (
      at,
      create_lem (front m) (take 4 r₀) (take n r₁) (take (padding_of n) r₂) (behind_room m n) handle
          m v.small whole at parts (length-take_all 4 r₀ (omega arith))
          (length-take_all n r₁ (omega arith)) (length-take_all (padding_of n) r₂ (omega arith))
          (omega arith),
    )

bytes-behind_room : (m : RSerPoolMessage) (n : ℕ) → IsMessage m → All IsByte (behind_room m n)
bytes-behind_room m n v =
    let r₀ = drop m.position m.buffer in
    bytes-drop (padding_of n) (drop n (drop 4 r₀))
      (bytes-drop n (drop 4 r₀) (bytes-drop 4 r₀ (bytes-drop m.position m.buffer v.bytes)))

-- On a message whose position is inside its buffer, with room for the parameter, and a handle of 1 to
-- 32 bytes, createPoolHandleParameter succeeds, and scanPoolHandleParameter at the same position
-- accepts the parameter, gets the same handle, and ends where the creator has ended.
pub create_pool_handle_parameter-scan_pool_handle_parameter :
    (m : RSerPoolMessage) (handle : List ℕ)
    → IsMessage m
    → All IsByte handle
    → 0 < length handle
    → length handle ≤ max_poolhandlesize
    → m.position + length (pool_handle_tlv handle) ≤ m.buffer_size
    → (m' : RSerPoolMessage) × (m'' : RSerPoolMessage) × (create_pool_handle_parameter m handle
        ≡ created m')
      × (scan_pool_handle_parameter (record m' { position = m.position })
          ≡ some (record { accepted = true; message = m''; pool_handle = some handle }))
      × (m''.position ≡ m'.position)
      × (m'.position ≡ m.position + length (pool_handle_tlv handle))
create_pool_handle_parameter-scan_pool_handle_parameter m handle v bytes nonempty short fits =
    let n = length handle in
    let (at, (m', q, b, p, s, e)) = created_at m handle v short fits in
    let size = length-pool_handle_tlv handle in
    let rest = length-behind_room m n v in
    let l₀ = length-append (front m) (pool_handle_tlv handle ++ behind_room m n) in
    let l₁ = length-append (pool_handle_tlv handle) (behind_room m n) in
    let total = ap length b in
    let back : RSerPoolMessage = record m' { position = m.position } in
    let valid : IsMessage back = record {
      whole = omega arith;
      bytes = subst (All IsByte) (sym b) (
          bytes-append (front m) (pool_handle_tlv handle ++ behind_room m n)
            (bytes-take m.position m.buffer v.bytes)
            (bytes-append (pool_handle_tlv handle) (behind_room m n)
              (bytes-pool_handle_tlv handle short bytes) (bytes-behind_room m n v)));
      small = (let k = v.small in omega arith);
      inside = omega arith;
    } in
    elim (scan_pool_handle_parameter-layout (front m) handle (behind_room m n) back valid b at
      nonempty (omega arith)) [
        | inl (l, (m'', r, p', e')) ↦ (m', m'', q, r, omega arith, p)
        | inr (l, r) ↦ absurd (omega arith)
      ]

-- ===== src/Message/Skipping.antt =====
-- The walk over the parameters of a message stays inside its buffer and ends.
use rsplib.Base.{
  ℕ, zero, suc, ◌+◌, ◌-◌, ◌%◌, ◌^◌, ◌<◌, ◌≤◌, ◌≡◌, ◌≢◌, ◌⊎◌, inl, inr, refl, arith, Option, none,
  some, Bool, true, false, not, ◌||◌, Bool-cases, ltb, leb, leb→le, ◌==◌,
}
use rsplib.Message.{
  RSerPoolMessage, ErrorCode, okay, invalid_tlv, invalid_message, unrecognized_parameter,
  unrecognized_parameter_silent, TlvHeader, get_space, word_at, get_next_tlv, pure_att_type,
  att_action,
}
use rsplib.Message.Layout.{IsMessage, word_at_bound}
use rsplib.Message.Tlv.{handle_unknown_tlv, check_begin_tlv}

pub no_leb : (a b : ℕ) → leb a b ≡ false → b < a
no_leb a b h = ground arith

pub no_ltb : (a b : ℕ) → ltb a b ≡ false → b ≤ a
no_ltb a b h = ground arith

pub within : (a b : ℕ) → a ≤ b → ltb b a ≡ false
within a b h = ground arith

pub get_space-IsMessage :
    (m : RSerPoolMessage) (n : ℕ)
    → IsMessage m
    → n < 2 ^ 62
    → ((get_space m n ≡ some (record m { position = m.position + n }))
        × IsMessage (record m { position = m.position + n }))
      ⊎ ((get_space m n ≡ none) × (m.buffer_size < m.position + n))
unfolding get_space
get_space-IsMessage m n v b =
    let fits = v.small in
    let inside = v.inside in
    let e : (m.position + n) % 2 ^ 64 ≡ m.position + n = omega arith in
    elim (Bool-cases (leb (m.position + n) m.buffer_size)) [
      | inl t ↦ inl (
        rw (e, t) refl,
        record {
          whole = v.whole;
          bytes = v.bytes;
          small = v.small;
          inside = leb→le (m.position + n) m.buffer_size t;
        },
      )
      | inr f ↦ inr (rw (e, f) refl, no_leb (m.position + n) m.buffer_size f)
    ]

-- What getNextTLV leaves behind, when it starts from `m`
pub record IsNext (m m' : RSerPoolMessage) (h' : TlvHeader) (ok : Bool) : Type 0 where
  pub message : IsMessage m'
  pub same_buffer : m'.buffer ≡ m.buffer
  pub same_size : m'.buffer_size ≡ m.buffer_size
  pub at_position : h'.tlv_position ≡ m.position
  pub outcome :
      ((ok ≡ true)
        × (m'.position ≡ m.position + 4)
        × (4 ≤ h'.tlv_length)
        × (h'.tlv_length < 2 ^ 16)
        × (m.position + h'.tlv_length ≤ m.buffer_size)
        × (m'.error ≡ m.error))
      ⊎ ((ok ≡ false) × (m'.error ≢ okay))

moved :
    (m m' : RSerPoolMessage)
    → IsMessage m'
    → (e : ErrorCode) (n : ℕ) (t : Option ℕ)
    → IsMessage
        (record m' { error = e; offending_parameter_tlv = t; offending_parameter_tlv_length = n })
moved m m' v e n t = record { whole = v.whole; bytes = v.bytes; small = v.small; inside = v.inside }

-- On a message whose position is inside its buffer, getNextTLV leaves the buffer as it is and the
-- position inside it. Where it succeeds, it has gone behind a header whose parameter, of at least 4
-- bytes, lies inside the buffer, and has left the error code alone; where it fails, it has set one.
pub get_next_tlv-IsNext :
    (m : RSerPoolMessage) (h : TlvHeader)
    → IsMessage m
    → (ok : Bool) × (m' : RSerPoolMessage) × (h' : TlvHeader) × (get_next_tlv m h ≡ (ok, m', h'))
      × IsNext m m' h' ok
unfolding get_next_tlv
get_next_tlv-IsNext m h v =
    let start : RSerPoolMessage = record m {
      offending_parameter_tlv = some m.position;
      offending_parameter_tlv_length = 0;
    } in
    let length = word_at m.buffer (m.position + 2) in
    let bound : length < 2 ^ 16 = word_at_bound m.buffer (m.position + 2) v.bytes in
    let header : TlvHeader = record {
      tlv_position = m.position;
      tlv_type = word_at m.buffer m.position;
      tlv_length = length;
    } in
    let small = v.small in
    elim (get_space-IsMessage start 4 (moved m m v m.error 0 (some m.position)) (omega arith)) [
      | inr (q, f) ↦ (
        false,
        record start { error = invalid_message },
        record h { tlv_position = m.position },
        rw (get_next_tlv, q) refl,
        record {
          message = moved m m v invalid_message 0 (some m.position);
          same_buffer = refl;
          same_size = refl;
          at_position = refl;
          outcome = inr (refl, λ e. cc);
        },
      )
      | inl (q, w) ↦
          let m' : RSerPoolMessage = record start { position = m.position + 4 } in
          let inside = w.inside in
          let e : (m.position + 4 + length - 4) % 2 ^ 64 ≡ m.position + length = omega arith in
          let failed : RSerPoolMessage = record m' { error = invalid_tlv } in
          let failure : IsNext m failed header false = record {
            message = moved m m' w invalid_tlv 0 (some m.position);
            same_buffer = refl;
            same_size = refl;
            at_position = refl;
            outcome = inr (refl, λ e. cc);
          } in
          elim (Bool-cases (ltb m.buffer_size (m.position + length))) [
            | inl t ↦ (false, failed, header, rw (get_next_tlv, q, e, t) refl, failure)
            | inr f ↦ elim (Bool-cases (ltb length 4)) [
              | inl t ↦ (false, failed, header, rw (get_next_tlv, q, e, f, t) refl, failure)
              | inr g ↦ (
                true,
                record m' { offending_parameter_tlv_length = length },
                header,
                rw (get_next_tlv, q, e, f, g) refl,
                record {
                  message = moved m m' w m.error length (some m.position);
                  same_buffer = refl;
                  same_size = refl;
                  at_position = refl;
                  outcome = inl (
                    refl,
                    refl,
                    no_ltb length 4 g,
                    bound,
                    no_ltb m.buffer_size (m.position + length) f,
                    refl,
                  );
                },
              )
            ]
          ]
    ]

-- A header whose parameter lies inside the buffer is read.
pub get_next_tlv_lem :
    (m : RSerPoolMessage) (h : TlvHeader)
    → IsMessage m
    → 4 ≤ word_at m.buffer (m.position + 2)
    → m.position + word_at m.buffer (m.position + 2) ≤ m.buffer_size
    → get_next_tlv m h ≡ (
      true,
      record m {
        position = m.position + 4;
        offending_parameter_tlv = some m.position;
        offending_parameter_tlv_length = word_at m.buffer (m.position + 2);
      },
      record {
        tlv_position = m.position;
        tlv_type = word_at m.buffer m.position;
        tlv_length = word_at m.buffer (m.position + 2);
      },
    )
unfolding get_next_tlv
get_next_tlv_lem m h v low fits =
    let length = word_at m.buffer (m.position + 2) in
    let small = v.small in
    elim (get_space-IsMessage
      (record m { offending_parameter_tlv = some m.position; offending_parameter_tlv_length = 0 }) 4
      (moved m m v m.error 0 (some m.position)) (omega arith)) [
        | inr (q, f) ↦ absurd (let k : m.buffer_size < m.position + 4 = f in omega arith)
        | inl (q, w) ↦
            let inside = w.inside in
            let e : (m.position + 4 + length - 4) % 2 ^ 64 ≡ m.position + length = omega arith in
            let f : ltb m.buffer_size (m.position + length) ≡ false =
              within (m.position + length) m.buffer_size fits in
            let g : ltb length 4 ≡ false = within 4 length low in rw (get_next_tlv, q, e, f, g) refl
      ]

handle_unknown_tlv-IsMessage :
    (m : RSerPoolMessage) (h : TlvHeader)
    → IsMessage m
    → h.tlv_length < 2 ^ 16
    → (b : Bool) × (m' : RSerPoolMessage) × (handle_unknown_tlv m h ≡ (b, m'))
      × IsMessage m'
      × (m'.buffer_size ≡ m.buffer_size)
      × ((b ≡ false) ⊎ (m.position ≤ m'.position))
unfolding handle_unknown_tlv
handle_unknown_tlv-IsMessage m h v l =
    let back : IsMessage (record m { position = m.position - 4 }) = record {
      whole = v.whole;
      bytes = v.bytes;
      small = v.small;
      inside = (let i = v.inside in omega arith);
    } in
    elim (Bool-cases (att_action h.tlv_type == 0)) [
      | inl t ↦ (
        false,
        _,
        rw t refl,
        moved m _ back unrecognized_parameter_silent m.offending_parameter_tlv_length
            m.offending_parameter_tlv,
        refl,
        inl refl,
      )
      | inr f ↦ elim (Bool-cases (att_action h.tlv_type == 1)) [
        | inl t ↦ (
          false,
          _,
          rw (f, t) refl,
          moved m _ back unrecognized_parameter m.offending_parameter_tlv_length
              m.offending_parameter_tlv,
          refl,
          inl refl,
        )
        | inr g ↦ elim (get_space-IsMessage m (h.tlv_length - 4) v (omega arith)) [
          | inl (q, w) ↦ (true, _, rw (f, g, q) refl, w, refl, inr (omega arith))
          | inr (q, o) ↦ (false, m, rw (f, g, q) refl, v, refl, inl refl)
        ]
      ]
    ]

-- On a message whose position is inside its buffer, with fuel for a round on each byte that is left,
-- the loop of checkBeginTLV ends, and the position is still inside the buffer. It returns 0, or the
-- length of the last header that it has read.
pub check_begin_tlv-ends :
    (fuel : ℕ) (m : RSerPoolMessage) (expected : ℕ) (check_type : Bool) (h : TlvHeader)
    → IsMessage m
    → m.buffer_size - m.position < fuel
    → (length : ℕ) × (m' : RSerPoolMessage) × (h' : TlvHeader) × (check_begin_tlv fuel m expected
          check_type h
        ≡ some (length, m', h'))
      × IsMessage m'
      × ((length ≡ 0) ⊎ (length ≡ h'.tlv_length))
unfolding check_begin_tlv
check_begin_tlv-ends zero m expected check_type h v f = absurd (omega arith)
check_begin_tlv-ends (suc fuel) m expected check_type h v f =
    let (ok, m₁, h₁, q, n) = get_next_tlv-IsNext m h v in
    elim n.outcome [
      | inr (failure, e) ↦ (h₁.tlv_length, m₁, h₁, rw (q, failure) refl, n.message, inr refl)
      | inl (success, at, low, high, fits, e) ↦
          elim (Bool-cases (not check_type || pure_att_type h₁.tlv_type == expected)) [
            | inl t ↦ (h₁.tlv_length, m₁, h₁, rw (q, success, t) refl, n.message, inr refl)
            | inr other ↦
                let (b, m₂, r, v₂, s, o) = handle_unknown_tlv-IsMessage m₁ h₁ n.message high in
                elim (Bool-cases b) [
                  | inr failure ↦ (0, m₂, h₁, rw (q, success, other, r, failure) refl, v₂, inl refl)
                  | inl goes ↦ elim o [
                    | inl failure ↦ cc
                    | inr forward ↦
                        let size = n.same_size in
                        let more = v₂.inside in
                        let (l, m₃, h₃, w, v₃, z) =
                          check_begin_tlv-ends fuel m₂ expected check_type h₁ v₂ (omega arith) in
                        (l, m₃, h₃, rw (q, success, other, r, goes) w, v₃, z)
                  ]
                ]
          ]
    ]

-- ===== src/Message/Tests.antt =====
-- The message parser at a message with one parameter, the pool handle "abc".
use rsplib.Base.{
  ℕ, ◌+◌, ◌<◌, ◌≤◌, List, [], ◌∷◌, ◌≡◌, ◌⊎◌, refl, arith, none, some, Bool, true, length,
}
use rsplib.PoolHandle.{max_poolhandlesize}
use rsplib.Message.{RSerPoolMessage, okay, TlvHeader, get_next_tlv}
use rsplib.Message.Create.{created, create_pool_handle_parameter}
use rsplib.Message.RoundTrip.{create_pool_handle_parameter-scan_pool_handle_parameter}
use rsplib.Message.Layout.{IsMessage}
use rsplib.Message.PoolHandles.{pool_handle_tlv, scan_pool_handle_parameter-layout}
use rsplib.Message.Skipping.{IsNext, get_next_tlv-IsNext, check_begin_tlv-ends}
use rsplib.Message.Tlv.{check_begin_tlv, scan_pool_handle_parameter, no_header}

abbrev abc : List ℕ
abc = 97 ∷ 98 ∷ 99 ∷ []

abbrev message : RSerPoolMessage
message = record {
  buffer = 0 ∷ 9 ∷ 0 ∷ 7 ∷ 97 ∷ 98 ∷ 99 ∷ 0 ∷ [];
  buffer_size = 8;
  position = 0;
  error = okay;
  offending_parameter_tlv = none;
  offending_parameter_tlv_length = 0;
}

message-IsMessage : IsMessage message
message-IsMessage = record {
  whole = refl;
  bytes = (
    omega arith,
    (
      omega arith,
      (omega arith, (omega arith, (omega arith, (omega arith, (omega arith, (omega arith, tt)))))),
    ),
  );
  small = omega arith;
  inside = omega arith;
}

get_next_tlv-IsNext_example :
    (ok : Bool) × (m' : RSerPoolMessage) × (h' : TlvHeader) × (get_next_tlv message no_header
      ≡ (ok, m', h'))
    × IsNext message m' h' ok
get_next_tlv-IsNext_example = get_next_tlv-IsNext message no_header message-IsMessage

check_begin_tlv-ends_example :
    (length : ℕ) × (m' : RSerPoolMessage) × (h' : TlvHeader) × (check_begin_tlv 9 message 9 true
        no_header
      ≡ some (length, m', h'))
    × IsMessage m'
    × ((length ≡ 0) ⊎ (length ≡ h'.tlv_length))
check_begin_tlv-ends_example =
    check_begin_tlv-ends 9 message 9 true no_header message-IsMessage (omega arith)

scan_pool_handle_parameter-layout_example :
    ((length abc ≤ max_poolhandlesize)
      × ((m' : RSerPoolMessage) × (scan_pool_handle_parameter message
            ≡ some (record { accepted = true; message = m'; pool_handle = some abc }))
          × (m'.position ≡ length {A = ℕ} [] + length (pool_handle_tlv abc))
          × (m'.error ≡ okay)))
    ⊎ ((max_poolhandlesize < length abc) × (scan_pool_handle_parameter message ≡ none))
scan_pool_handle_parameter-layout_example =
    scan_pool_handle_parameter-layout [] abc [] message message-IsMessage refl refl (omega arith)
      (omega arith)

abbrev empty_message : RSerPoolMessage
empty_message = record {
  buffer = 1 ∷ 2 ∷ 3 ∷ 4 ∷ 5 ∷ 6 ∷ 7 ∷ 8 ∷ [];
  buffer_size = 8;
  position = 0;
  error = okay;
  offending_parameter_tlv = none;
  offending_parameter_tlv_length = 0;
}

empty_message-IsMessage : IsMessage empty_message
empty_message-IsMessage = record {
  whole = refl;
  bytes = (
    omega arith,
    (
      omega arith,
      (omega arith, (omega arith, (omega arith, (omega arith, (omega arith, (omega arith, tt)))))),
    ),
  );
  small = omega arith;
  inside = omega arith;
}

create_pool_handle_parameter-scan_pool_handle_parameter_example :
    (m' : RSerPoolMessage) × (m'' : RSerPoolMessage) × (create_pool_handle_parameter empty_message
        abc
      ≡ created m')
    × (scan_pool_handle_parameter (record m' { position = 0 })
        ≡ some (record { accepted = true; message = m''; pool_handle = some abc }))
    × (m''.position ≡ m'.position)
    × (m'.position ≡ length (pool_handle_tlv abc))
create_pool_handle_parameter-scan_pool_handle_parameter_example =
    create_pool_handle_parameter-scan_pool_handle_parameter empty_message abc
      empty_message-IsMessage (omega arith, (omega arith, (omega arith, tt))) (omega arith)
      (omega arith) (omega arith)

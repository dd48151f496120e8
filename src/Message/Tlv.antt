-- ===== src/Message/Tlv.antt =====
-- src/rserpoolmessageparser.c: the begin and the end of a parameter, and the pool handle parameter.
use rsplib.Base.{
  ℕ, zero, suc, ◌+◌, ◌-◌, List, Option, none, some, Bool, true, false, not, ◌||◌, ◌==◌, ltb, take,
  drop, if◌then◌else◌,
}
use rsplib.Message.{
  RSerPoolMessage, ErrorCode, invalid_tlv, invalid_value, unrecognized_parameter,
  unrecognized_parameter_silent, TlvHeader, get_space, get_padding, word_at, att_pool_handle,
  pure_att_type, att_action, get_next_tlv,
}
use rsplib.PoolHandle
use rsplib.PoolHandle.{max_poolhandlesize}

-- handleUnknownTLV: whether the parser goes on, and the message
abbrev pub skip_tlv : RSerPoolMessage → Option RSerPoolMessage → Bool × RSerPoolMessage
skip_tlv m none = (false, m)
skip_tlv m (some m') = (true, m')

abbrev pub stop_at_tlv : RSerPoolMessage → ErrorCode → Bool × RSerPoolMessage
stop_at_tlv m e = (false, record m { position = m.position - 4; error = e })

unfoldable pub handle_unknown_tlv : RSerPoolMessage → TlvHeader → Bool × RSerPoolMessage
unfolding get_space
handle_unknown_tlv m h =
    if att_action h.tlv_type == 0
    then stop_at_tlv m unrecognized_parameter_silent
    else if att_action h.tlv_type == 1
    then stop_at_tlv m unrecognized_parameter
    else skip_tlv m (get_space m (h.tlv_length - 4))

-- checkBeginTLV, for the expected type or, without the check, for any: the length that it returns, the message, and the header with
-- the position. The loop runs on fuel.
unfoldable pub check_begin_tlv :
    ℕ → RSerPoolMessage → ℕ → Bool → TlvHeader → Option (ℕ × RSerPoolMessage × TlvHeader)
unfolding get_next_tlv handle_unknown_tlv
check_begin_tlv zero m expected check_type h = none
check_begin_tlv (suc fuel) m expected check_type h =
    let (next, m', h') = get_next_tlv m h in
    let (goes_on, m'') = handle_unknown_tlv m' h' in
    let rest = check_begin_tlv fuel m'' expected check_type h' in
    if not next
    then some (h'.tlv_length, m', h')
    else if not check_type || pure_att_type h'.tlv_type == expected
    then some (h'.tlv_length, m', h')
    else if goes_on
    then rest
    else some (0, m'', h')

-- checkFinishTLV
abbrev pub finished : RSerPoolMessage → RSerPoolMessage
finished m = record m { offending_parameter_tlv = none; offending_parameter_tlv_length = 0 }

unfoldable pub check_finish_tlv : RSerPoolMessage → ℕ → Bool × RSerPoolMessage
unfolding get_space get_padding
check_finish_tlv m tlv_position =
    let length = word_at m.buffer (tlv_position + 2) in
    let end_pos = tlv_position + length + get_padding length 4 in
    if ltb end_pos m.position
    then (false, record m { error = invalid_tlv })
    else if ltb m.position end_pos
    then elim (get_space m (end_pos - m.position)) [
      | none ↦ (false, record m { error = invalid_tlv })
      | some m' ↦ (true, finished m')
    ]
    else (true, finished m)

-- scanPoolHandleParameter: its result, the message, and the handle that has been stored, if any. The
-- result `none` is a failed CHECK of poolHandleNew, which ends the program.
pub record Scanned : Type 0 where
  pub accepted : Bool
  pub message : RSerPoolMessage
  pub pool_handle : Option (List ℕ)

unfoldable pub mark_oversized : ℕ → RSerPoolMessage → RSerPoolMessage
mark_oversized size m =
    if ltb max_poolhandlesize size then record m { error = invalid_value } else m

abbrev pub store_pool_handle : RSerPoolMessage → ℕ → Option (List ℕ) → Option Scanned
store_pool_handle m tlv_position none = none
store_pool_handle m tlv_position (some handle) =
    let (ok, m') = check_finish_tlv m tlv_position in
    some (record { accepted = ok; message = m'; pool_handle = some handle })

unfoldable pub take_pool_handle : RSerPoolMessage → ℕ → ℕ → Option Scanned
take_pool_handle m tlv_position size = elim (get_space m size) [
  | none ↦ some (record {
    accepted = false;
    message = record m { error = invalid_value };
    pool_handle = none;
  })
  | some m' ↦
      store_pool_handle (mark_oversized size m') tlv_position
        (PoolHandle.new (take size (drop m.position m.buffer)))
]

-- The out parameters of getNextTLV begin as 0.
abbrev pub no_header : TlvHeader
no_header = record { tlv_position = 0; tlv_type = 0; tlv_length = 0 }

abbrev pub scan_at : ℕ × RSerPoolMessage × TlvHeader → Option Scanned
scan_at (length, m, h) =
    if ltb length 4
    then some (record { accepted = false; message = m; pool_handle = none })
    else if ltb (length - 4) 1
    then some (record {
      accepted = false;
      message = record m { error = invalid_tlv };
      pool_handle = none;
    })
    else take_pool_handle m h.tlv_position (length - 4)

-- The loop has fuel for a round on each byte.
unfoldable pub scan_pool_handle_parameter : RSerPoolMessage → Option Scanned
unfolding check_begin_tlv take_pool_handle
scan_pool_handle_parameter m =
    elim (check_begin_tlv (suc m.buffer_size) m att_pool_handle true no_header) [
      | none ↦ none
      | some found ↦ scan_at found
    ]

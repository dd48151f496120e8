-- ===== src/Message.antt =====
-- src/rserpoolmessage.c and src/rserpoolmessageparser.c: the parameters of a received message. The
-- buffer is the list of its bytes, and numbers in it are in network byte order. A `size_t` has 64
-- bits.
pub mod Tlv
pub mod Create
pub mod Layout
pub mod Skipping
pub mod PoolHandles
pub mod Creating
pub mod RoundTrip
mod Tests
use rsplib.Base.{
  ℕ, zero, suc, ◌+◌, ◌-◌, ◌*◌, ◌/◌, ◌%◌, ◌^◌, List, [], ◌∷◌, Option, none, some, Bool, true, false,
  not, ◌||◌, ◌==◌, ltb, leb, get_or, if◌then◌else◌,
}

-- The codes of src/rserpoolerror.h that the parser sets here
pub data ErrorCode : Type 0 where
  okay unrecognized_parameter invalid_tlv invalid_message invalid_value : ErrorCode
  unrecognized_parameter_silent : ErrorCode

-- The fields of struct RSerPoolMessage that the parameters of a message need. The offending
-- parameter is given by its position in the buffer.
pub record RSerPoolMessage : Type 0 where
  pub buffer : List ℕ
  pub buffer_size : ℕ
  pub position : ℕ
  pub error : ErrorCode
  pub offending_parameter_tlv : Option ℕ
  pub offending_parameter_tlv_length : ℕ

-- getSpace: `none` is NULL, where the message is as before.
unfoldable pub get_space : RSerPoolMessage → ℕ → Option RSerPoolMessage
get_space m size =
    if leb ((m.position + size) % 2 ^ 64) m.buffer_size
    then some (record m { position = (m.position + size) % 2 ^ 64 })
    else none

-- getPadding
unfoldable pub get_padding : ℕ → ℕ → ℕ
get_padding size alignment =
    let padding = alignment - size % alignment in if padding == alignment then 0 else padding

-- ntohs of the two bytes at a position of the buffer. Positions are read only
-- after getSpace has found them inside the buffer.
abbrev pub word_at : List ℕ → ℕ → ℕ
word_at buffer i = 256 * get_or buffer i 0 + get_or buffer (i + 1) 0

-- What getNextTLV stores through its pointers
pub record TlvHeader : Type 0 where
  pub tlv_position : ℕ
  pub tlv_type : ℕ
  pub tlv_length : ℕ

abbrev pub att_pool_handle : ℕ
att_pool_handle = 9

-- PURE_ATT_TYPE, and the two bits of ATT_ACTION_MASK
abbrev pub pure_att_type : ℕ → ℕ
pure_att_type type = type % 2 ^ 14

abbrev pub att_action : ℕ → ℕ
att_action type = type / 2 ^ 14 % 4

-- getNextTLV. Without space for a header, the type and the length stay what they were.
unfoldable pub get_next_tlv : RSerPoolMessage → TlvHeader → Bool × RSerPoolMessage × TlvHeader
unfolding get_space
get_next_tlv m h =
    let start : RSerPoolMessage = record m {
      offending_parameter_tlv = some m.position;
      offending_parameter_tlv_length = 0;
    } in
    elim (get_space start 4) [
      | none ↦
          (false, record start { error = invalid_message }, record h { tlv_position = m.position })
      | some m' ↦
          let length = word_at m.buffer (m.position + 2) in
          let header : TlvHeader = record {
            tlv_position = m.position;
            tlv_type = word_at m.buffer m.position;
            tlv_length = length;
          } in
          if ltb m.buffer_size ((m'.position + length - 4) % 2 ^ 64)
          then (false, record m' { error = invalid_tlv }, header)
          else if ltb length 4
          then (false, record m' { error = invalid_tlv }, header)
          else (true, record m' { offending_parameter_tlv_length = length }, header)
    ]

-- ===== src/Message/Create.antt =====
-- src/rserpoolmessagecreator.c: the begin and the end of a parameter, and the pool handle parameter.
use rsplib.Base.{
  ℕ, ◌+◌, ◌-◌, ◌/◌, ◌%◌, List, [], ◌∷◌, ◌++◌, Option, none, some, leb, length, take, drop,
  replicate, if◌then◌else◌,
}
use rsplib.Message.{RSerPoolMessage, get_space, get_padding, att_pool_handle}

-- The message with what has been written into it, the result `false`, or a write through NULL
pub data Creation : Type 0 where
  created : RSerPoolMessage → Creation
  refused write_through_null : Creation

-- memcpy into the buffer
unfoldable pub write : ℕ → List ℕ → List ℕ → List ℕ
write p xs buffer = take p buffer ++ (xs ++ drop (p + length xs) buffer)

-- htons(n), as bytes
abbrev pub network_word : ℕ → List ℕ
network_word n = n / 256 % 256 ∷ n % 256 ∷ []

-- beginTLV: the parameter begins at the position that the message has.
unfoldable pub begin_tlv : RSerPoolMessage → ℕ → Option RSerPoolMessage
begin_tlv m type = elim (get_space m 4) [
  | none ↦ none
  | some m' ↦
      some
        (record m' { buffer = write m.position (network_word type ++ (255 ∷ 255 ∷ [])) m.buffer })
]

-- finishTLV. The result of getSpace is not tested before the padding is written.
unfoldable pub pad_tlv : RSerPoolMessage → ℕ → Creation
pad_tlv m padding = elim (get_space m padding) [
  | none ↦ write_through_null
  | some m' ↦ created (record m' { buffer = write m.position (replicate padding 0) m.buffer })
]

unfoldable pub finish_tlv : RSerPoolMessage → ℕ → Creation
finish_tlv m tlv_position =
    let length = m.position - tlv_position in
    if leb 4 m.buffer_size
    then pad_tlv (record m { buffer = write (tlv_position + 2) (network_word length) m.buffer })
        (get_padding length 4)
    else refused

-- createPoolHandleParameter, for a handle that is not NULL
unfoldable pub put_pool_handle : RSerPoolMessage → ℕ → List ℕ → Creation
put_pool_handle m tlv_position handle = elim (get_space m (length handle)) [
  | none ↦ refused
  | some m' ↦ finish_tlv (record m' { buffer = write m.position handle m.buffer }) tlv_position
]

unfoldable pub create_pool_handle_parameter : RSerPoolMessage → List ℕ → Creation
create_pool_handle_parameter m handle = elim (begin_tlv m att_pool_handle) [
  | none ↦ refused
  | some m' ↦ put_pool_handle m' m.position handle
]

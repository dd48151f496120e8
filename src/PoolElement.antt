-- ===== src/PoolElement.antt =====
-- src/poolelementnode-template.h and src/poolelementnode-template_impl.h: a pool element. The
-- links into the storages are not fields here: a storage holds its elements. `value` is the Value
-- of the selection storage's node.
pub mod Storages
pub mod Orders
use rsplib.Base.{
  ℕ, Bool, true, false, Option, Ordering, eq, ℤ, ascending, ltb, ◌||◌, not, ◌==◌, if◌then◌else◌,
}
use rsplib.PolicySettings.{PoolPolicySettings, differ}

-- src/transportaddressblock.h, without the list link and the addresses themselves. `control_channel`
-- is the flag TABF_CONTROLCHANNEL, the only one.
pub record TransportAddressBlock : Type 0 where
  pub protocol : ℕ
  pub port : ℕ
  pub control_channel : Bool
  pub addresses : ℕ

-- The bits PENF_MARKED, PENF_UPDATED and PENF_NEW.
pub record Flags : Type 0 where
  pub marked : Bool
  pub updated : Bool
  pub is_new : Bool

pub record PoolElementNode : Type 0 where
  pub identifier : ℕ
  pub checksum : ℕ
  pub home_registrar_identifier : ℕ
  pub registration_life : ℕ
  pub policy_settings : PoolPolicySettings
  pub flags : Flags
  pub seq_number : ℕ
  pub round_counter : ℕ
  pub virtual_counter : ℕ
  pub degradation : ℕ
  pub unreachability_reports : ℕ
  pub selection_counter : ℕ
  pub last_update_time_stamp : ℕ
  pub timer_code : ℕ
  pub timer_time_stamp : ℕ
  pub connection_socket_descriptor : ℤ
  pub connection_assoc_id : ℕ
  pub user_transport : TransportAddressBlock
  pub registrator_transport : Option TransportAddressBlock
  pub value : ℕ

-- What the handlespace keeps account of in an element.
pub record Account : Type 0 where
  pub account_identifier : ℕ
  pub account_checksum : ℕ
  pub account_home : ℕ
  pub account_timer : ℕ
  pub account_socket : ℤ
  pub account_assoc : ℕ

abbrev pub account : PoolElementNode → Account
account e = record {
  account_identifier = e.identifier;
  account_checksum = e.checksum;
  account_home = e.home_registrar_identifier;
  account_timer = e.timer_time_stamp;
  account_socket = e.connection_socket_descriptor;
  account_assoc = e.connection_assoc_id;
}

abbrev pub no_flags : Flags
no_flags = record { marked = false; updated = false; is_new = false }

-- poolElementNodeNew. INITIAL_HANDLESPACE_CHECKSUM is 0.
unfoldable pub new :
    (identifier home_registrar_identifier registration_life : ℕ)
    → PoolPolicySettings
    → TransportAddressBlock
    → Option TransportAddressBlock
    → (connection_socket_descriptor : ℤ) → (connection_assoc_id : ℕ) → PoolElementNode
new id home life settings user registrator socket assoc = record {
  identifier = id;
  checksum = 0;
  home_registrar_identifier = home;
  registration_life = life;
  policy_settings = settings;
  flags = no_flags;
  seq_number = 0;
  round_counter = 0;
  virtual_counter = 0;
  degradation = 0;
  unreachability_reports = 0;
  selection_counter = 0;
  last_update_time_stamp = 0;
  timer_code = 0;
  timer_time_stamp = 0;
  connection_socket_descriptor = socket;
  connection_assoc_id = assoc;
  user_transport = user;
  registrator_transport = registrator;
  value = 0;
}

-- poolElementNodeUpdate: the element after it, and whether the policy information has changed.
unfoldable pub update : PoolElementNode → PoolElementNode → PoolElementNode × Bool
update e source =
    if differ e.policy_settings source.policy_settings || not (e.degradation == 0)
    then (
      record e {
        policy_settings = source.policy_settings;
        degradation = 0;
        virtual_counter =
            if ltb source.policy_settings.weight e.virtual_counter
            then source.policy_settings.weight
            else e.virtual_counter;
        flags = record { marked = false; updated = true; is_new = e.flags.is_new };
      },
      true,
    )
    else (
      record e { flags = record { marked = false; updated = false; is_new = e.flags.is_new } },
      false,
    )

-- poolElementIndexStorageNodeComparison
unfoldable pub index_comparison : PoolElementNode → PoolElementNode → Ordering
index_comparison a b = ascending a.identifier b.identifier eq

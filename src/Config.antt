-- ===== src/Config.antt =====
-- src/lib.rs: the socket configuration.
use socket_collection.Base.{ℕ, ◌*◌}
use socket_collection.Env.{Crates}
use socket_collection.Crypto.{EncryptContext, DecryptContext, enc_default, dec_default}

-- `Priority`, a `u8`: a lower value is sent first.
abbrev pub Priority : Type 0
Priority = ℕ

abbrev pub default_max_payload_size : ℕ
default_max_payload_size = 2 * 1024 * 1024

abbrev pub default_msg_drop_priority : Priority
default_msg_drop_priority = 2

abbrev pub default_max_msg_age_secs : ℕ
default_max_msg_age_secs = 60

pub record SocketConfig (x : Crates) : Type 0 where
  pub max_payload_size : ℕ
  pub msg_drop_priority : Priority
  pub max_msg_age_secs : ℕ
  pub enc_ctx : EncryptContext x
  pub dec_ctx : DecryptContext x

-- `SocketConfig::default`.
abbrev pub default_config : (x : Crates) → SocketConfig x
default_config x = record {
  max_payload_size = default_max_payload_size;
  msg_drop_priority = default_msg_drop_priority;
  max_msg_age_secs = default_max_msg_age_secs;
  enc_ctx = enc_default;
  dec_ctx = dec_default;
}

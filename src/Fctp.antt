-- ===== src/Fctp.antt =====
-- core/src/fctp.rs: the constants of the wire protocol between the core and PROCESS modules.
pub mod Encode
pub mod Decode
pub mod Content
pub mod Place
pub mod Stored
pub mod RoundTrip
pub mod Replies
pub mod Robust
use glu_core.Prelude.{ℕ}

abbrev pub msg_call : ℕ
msg_call = 0x00

abbrev pub msg_result : ℕ
msg_result = 0x01

abbrev pub msg_callback_call : ℕ
msg_callback_call = 0x02

abbrev pub msg_callback_result : ℕ
msg_callback_result = 0x03

-- ===== src/Constants.antt =====
-- abletonosc/constants.py
use ohmic_bridge.Prelude.{ℕ}

abbrev pub osc_listen_port : ℕ
osc_listen_port = 11002

abbrev pub osc_response_port : ℕ
osc_response_port = 11003

abbrev pub max_reply_bytes : ℕ
max_reply_bytes = 8192

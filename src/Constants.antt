-- ===== src/Constants.antt =====
-- The framing constants of lib/Constants.h that the parsers and the exporter use.
use libfc.Prelude.{ℕ}

abbrev pub ipfix_version : ℕ
ipfix_version = 10

abbrev pub ipfix_message_header_len : ℕ
ipfix_message_header_len = 16

abbrev pub ipfix_set_header_len : ℕ
ipfix_set_header_len = 4

abbrev pub ipfix_min_message_len : ℕ
ipfix_min_message_len = 20

abbrev pub ipfix_template_set_id : ℕ
ipfix_template_set_id = 2

abbrev pub ipfix_option_template_set_id : ℕ
ipfix_option_template_set_id = 3

abbrev pub min_data_set_id : ℕ
min_data_set_id = 256

abbrev pub max_message_len : ℕ
max_message_len = 65535

abbrev pub v9_version : ℕ
v9_version = 9

abbrev pub v5_version : ℕ
v5_version = 5

abbrev pub v9_message_header_len : ℕ
v9_message_header_len = 20

abbrev pub v9_set_header_len : ℕ
v9_set_header_len = 4

abbrev pub v9_template_set_id : ℕ
v9_template_set_id = 0

abbrev pub v9_option_template_set_id : ℕ
v9_option_template_set_id = 1

abbrev pub v9_min_data_set_id : ℕ
v9_min_data_set_id = 256

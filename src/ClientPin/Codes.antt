-- ===== src/ClientPin/Codes.antt =====
-- clientpin.go: the command, its subcommands, the keys of its parameters and replies, and the
-- permissions.
use fido.Base.{ℕ}
use fido.Base.Int.{ℤ, pos}

abbrev pub cmd_client_pin : ℕ
cmd_client_pin = 0x06

abbrev pub sub_get_pin_retries : ℕ
sub_get_pin_retries = 0x01

abbrev pub sub_get_key_agreement : ℕ
sub_get_key_agreement = 0x02

abbrev pub sub_get_pin_token : ℕ
sub_get_pin_token = 0x05

abbrev pub sub_get_token_using_pin : ℕ
sub_get_token_using_pin = 0x09

-- Subcommands that this package names and does not send.
abbrev pub sub_set_pin : ℕ
sub_set_pin = 0x03

abbrev pub sub_change_pin : ℕ
sub_change_pin = 0x04

abbrev pub sub_get_token_using_uv : ℕ
sub_get_token_using_uv = 0x06

abbrev pub sub_get_uv_retries : ℕ
sub_get_uv_retries = 0x07

-- The parameter keys, and those of the replies.
abbrev pub cp_protocol : ℤ
cp_protocol = pos 0x01

abbrev pub cp_sub_command : ℤ
cp_sub_command = pos 0x02

abbrev pub cp_key_agreement : ℤ
cp_key_agreement = pos 0x03

abbrev pub cp_pin_uv_auth_param : ℤ
cp_pin_uv_auth_param = pos 0x04

abbrev pub cp_new_pin_enc : ℤ
cp_new_pin_enc = pos 0x05

abbrev pub cp_pin_hash_enc : ℤ
cp_pin_hash_enc = pos 0x06

abbrev pub cp_permissions : ℤ
cp_permissions = pos 0x07

abbrev pub cp_rp_id : ℤ
cp_rp_id = pos 0x08

abbrev pub cp_resp_key_agreement : ℕ
cp_resp_key_agreement = 0x01

abbrev pub cp_resp_token : ℕ
cp_resp_token = 0x02

abbrev pub cp_resp_pin_retries : ℕ
cp_resp_pin_retries = 0x03

abbrev pub cp_resp_power_cycle : ℕ
cp_resp_power_cycle = 0x04

abbrev pub cp_resp_uv_retries : ℕ
cp_resp_uv_retries = 0x05

-- `Permissions`, a uint: what a token is asked to authorise.
abbrev pub Permissions : Type 0
Permissions = ℕ

abbrev pub perm_make_credential : Permissions
perm_make_credential = 0x01

abbrev pub perm_get_assertion : Permissions
perm_get_assertion = 0x02

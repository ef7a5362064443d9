-- ===== src/Protocol/Control.antt =====
-- The senders of the connection and of its events: src/libguac/protocol.c.
use guacenc.Base.{ℕ, List, [], ◌∷◌, if◌then◌else◌}
use guacenc.Base.Int.{ℤ}
use guacenc.Output.{◌or_else◌, ◌or_fail◌, codes, is_zero, write_string, instruction}
use guacenc.Protocol.{
  Port, Sender, protocol_version, literal, write_length_string, write_length_int,
}

module _ (port : Port) where
  -- `guac_protocol_send_disconnect`
  unfoldable pub send_disconnect : Sender port
  unfolding instruction write_string
  send_disconnect = instruction port.handlers (literal port "10.disconnect;")

  -- `guac_protocol_send_error`
  unfoldable pub send_error : List ℕ → ℤ → Sender port
  unfolding instruction write_length_int write_length_string write_string ◌or_else◌
  send_error error status = instruction port.handlers (
      literal port "5.error,"
      or_else write_length_string port error
      or_else literal port ","
      or_else write_length_int port status
      or_else literal port ";")

  -- `guac_protocol_send_key`
  unfoldable pub send_key : ℤ → ℤ → ℤ → Sender port
  unfolding instruction is_zero write_length_int write_string ◌or_else◌
  send_key keysym pressed timestamp = instruction port.handlers (
      literal port "3.key,"
      or_else write_length_int port keysym
      or_else write_string port.handlers (if is_zero pressed then codes ",1.0," else codes ",1.1,")
      or_else write_length_int port timestamp
      or_else literal port ";")

  -- `guac_protocol_send_mouse`
  unfoldable pub send_mouse : ℤ → ℤ → ℤ → ℤ → Sender port
  unfolding instruction write_length_int write_string ◌or_else◌
  send_mouse x y button_mask timestamp = instruction port.handlers (
      literal port "5.mouse,"
      or_else write_length_int port x
      or_else literal port ","
      or_else write_length_int port y
      or_else literal port ","
      or_else write_length_int port button_mask
      or_else literal port ","
      or_else write_length_int port timestamp
      or_else literal port ";")

  -- `guac_protocol_send_name`
  unfoldable pub send_name : List ℕ → Sender port
  unfolding instruction write_length_string write_string ◌or_else◌
  send_name name =
      instruction port.handlers
        (literal port "4.name," or_else write_length_string port name or_else literal port ";")

  -- `guac_protocol_send_nop`
  unfoldable pub send_nop : Sender port
  unfolding instruction write_string
  send_nop = instruction port.handlers (literal port "3.nop;")

  -- `guac_protocol_send_ready`
  unfoldable pub send_ready : List ℕ → Sender port
  unfolding instruction write_length_string write_string ◌or_else◌
  send_ready id =
      instruction port.handlers
        (literal port "5.ready," or_else write_length_string port id or_else literal port ";")

  -- `guac_protocol_send_select`
  unfoldable pub send_select : List ℕ → Sender port
  unfolding instruction write_length_string write_string ◌or_else◌
  send_select protocol =
      instruction port.handlers (
        literal port "6.select," or_else write_length_string port protocol or_else literal port ";")

  -- `guac_protocol_send_sync`
  unfoldable pub send_sync : ℤ → Sender port
  unfolding instruction write_length_int write_string ◌or_else◌
  send_sync timestamp =
      instruction port.handlers
        (literal port "4.sync," or_else write_length_int port timestamp or_else literal port ";")

  -- The loop over `args`, and the end of the instruction, in `__guac_protocol_send_args` and
  -- `__guac_protocol_send_connect`.
  unfoldable pub args_loop : List (List ℕ) → Sender port
  unfolding ◌or_fail◌ write_length_string write_string
  args_loop [] = literal port ";"
  args_loop (arg ∷ args) =
      literal port "," or_fail write_length_string port arg or_fail args_loop args

  -- `__guac_protocol_send_args`, in `guac_protocol_send_args`
  unfoldable pub send_args : List (List ℕ) → Sender port
  unfolding ◌or_else◌ ◌or_fail◌ args_loop instruction write_length_string write_string
  send_args args = instruction port.handlers (
      literal port "4.args"
      or_fail (literal port "," or_else write_length_string port protocol_version)
      or_fail args_loop args)

  -- `__guac_protocol_send_connect`, in `guac_protocol_send_connect`
  unfoldable pub send_connect : List (List ℕ) → Sender port
  unfolding ◌or_fail◌ args_loop instruction write_string
  send_connect args = instruction port.handlers (literal port "7.connect" or_fail args_loop args)

  -- `vguac_protocol_send_log`, given the message that `vsnprintf` made.
  unfoldable pub send_log : List ℕ → Sender port
  unfolding ◌or_else◌ instruction write_length_string write_string
  send_log message =
      instruction port.handlers
        (literal port "3.log," or_else write_length_string port message or_else literal port ";")

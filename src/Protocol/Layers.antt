-- ===== src/Protocol/Layers.antt =====
-- The senders that change a layer, or the cursor: src/libguac/protocol.c.
use guacenc.Base.{ℕ, List}
use guacenc.Base.Int.{ℤ}
use guacenc.Output.{◌or_else◌, write_string, instruction}
use guacenc.Protocol.{
  Port, Sender, literal, write_length_string, write_length_int, write_length_double,
}

module _ (port : Port) where
  -- `guac_protocol_send_clip`
  unfoldable pub send_clip : ℤ → Sender port
  unfolding instruction write_length_int write_string ◌or_else◌
  send_clip layer =
      instruction port.handlers
        (literal port "4.clip," or_else write_length_int port layer or_else literal port ";")

  -- `guac_protocol_send_cursor`
  unfoldable pub send_cursor : ℤ → ℤ → ℤ → ℤ → ℤ → ℤ → ℤ → Sender port
  unfolding instruction write_length_int write_string ◌or_else◌
  send_cursor x y srcl srcx srcy w h = instruction port.handlers (
      literal port "6.cursor,"
      or_else write_length_int port x
      or_else literal port ","
      or_else write_length_int port y
      or_else literal port ","
      or_else write_length_int port srcl
      or_else literal port ","
      or_else write_length_int port srcx
      or_else literal port ","
      or_else write_length_int port srcy
      or_else literal port ","
      or_else write_length_int port w
      or_else literal port ","
      or_else write_length_int port h
      or_else literal port ";")

  -- `guac_protocol_send_dispose`
  unfoldable pub send_dispose : ℤ → Sender port
  unfolding instruction write_length_int write_string ◌or_else◌
  send_dispose layer =
      instruction port.handlers
        (literal port "7.dispose," or_else write_length_int port layer or_else literal port ";")

  -- `guac_protocol_send_distort`
  unfoldable pub send_distort :
      ℤ
      → port.formats.Double
      → port.formats.Double
      → port.formats.Double
      → port.formats.Double
      → port.formats.Double
      → port.formats.Double
      → Sender port
  unfolding instruction write_length_double write_length_int write_string ◌or_else◌
  send_distort layer a b c d e f = instruction port.handlers (
      literal port "7.distort,"
      or_else write_length_int port layer
      or_else literal port ","
      or_else write_length_double port a
      or_else literal port ","
      or_else write_length_double port b
      or_else literal port ","
      or_else write_length_double port c
      or_else literal port ","
      or_else write_length_double port d
      or_else literal port ","
      or_else write_length_double port e
      or_else literal port ","
      or_else write_length_double port f
      or_else literal port ";")

  -- `guac_protocol_send_identity`
  unfoldable pub send_identity : ℤ → Sender port
  unfolding instruction write_length_int write_string ◌or_else◌
  send_identity layer =
      instruction port.handlers
        (literal port "8.identity," or_else write_length_int port layer or_else literal port ";")

  -- `guac_protocol_send_move`
  unfoldable pub send_move : ℤ → ℤ → ℤ → ℤ → ℤ → Sender port
  unfolding instruction write_length_int write_string ◌or_else◌
  send_move layer parent x y z = instruction port.handlers (
      literal port "4.move,"
      or_else write_length_int port layer
      or_else literal port ","
      or_else write_length_int port parent
      or_else literal port ","
      or_else write_length_int port x
      or_else literal port ","
      or_else write_length_int port y
      or_else literal port ","
      or_else write_length_int port z
      or_else literal port ";")

  -- `guac_protocol_send_pop`
  unfoldable pub send_pop : ℤ → Sender port
  unfolding instruction write_length_int write_string ◌or_else◌
  send_pop layer =
      instruction port.handlers
        (literal port "3.pop," or_else write_length_int port layer or_else literal port ";")

  -- `guac_protocol_send_push`
  unfoldable pub send_push : ℤ → Sender port
  unfolding instruction write_length_int write_string ◌or_else◌
  send_push layer =
      instruction port.handlers
        (literal port "4.push," or_else write_length_int port layer or_else literal port ";")

  -- `guac_protocol_send_reset`
  unfoldable pub send_reset : ℤ → Sender port
  unfolding instruction write_length_int write_string ◌or_else◌
  send_reset layer =
      instruction port.handlers
        (literal port "5.reset," or_else write_length_int port layer or_else literal port ";")

  -- `guac_protocol_send_set`
  unfoldable pub send_set : ℤ → List ℕ → List ℕ → Sender port
  unfolding instruction write_length_int write_length_string write_string ◌or_else◌
  send_set layer name value = instruction port.handlers (
      literal port "3.set,"
      or_else write_length_int port layer
      or_else literal port ","
      or_else write_length_string port name
      or_else literal port ","
      or_else write_length_string port value
      or_else literal port ";")

  -- `guac_protocol_send_shade`
  unfoldable pub send_shade : ℤ → ℤ → Sender port
  unfolding instruction write_length_int write_string ◌or_else◌
  send_shade layer a = instruction port.handlers (
      literal port "5.shade,"
      or_else write_length_int port layer
      or_else literal port ","
      or_else write_length_int port a
      or_else literal port ";")

  -- `guac_protocol_send_size`
  unfoldable pub send_size : ℤ → ℤ → ℤ → Sender port
  unfolding instruction write_length_int write_string ◌or_else◌
  send_size layer w h = instruction port.handlers (
      literal port "4.size,"
      or_else write_length_int port layer
      or_else literal port ","
      or_else write_length_int port w
      or_else literal port ","
      or_else write_length_int port h
      or_else literal port ";")

  -- `guac_protocol_send_transform`
  unfoldable pub send_transform :
      ℤ
      → port.formats.Double
      → port.formats.Double
      → port.formats.Double
      → port.formats.Double
      → port.formats.Double
      → port.formats.Double
      → Sender port
  unfolding instruction write_length_double write_length_int write_string ◌or_else◌
  send_transform layer a b c d e f = instruction port.handlers (
      literal port "9.transform,"
      or_else write_length_int port layer
      or_else literal port ","
      or_else write_length_double port a
      or_else literal port ","
      or_else write_length_double port b
      or_else literal port ","
      or_else write_length_double port c
      or_else literal port ","
      or_else write_length_double port d
      or_else literal port ","
      or_else write_length_double port e
      or_else literal port ","
      or_else write_length_double port f
      or_else literal port ";")

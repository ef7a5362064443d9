-- ===== src/Protocol/Drawing.antt =====
-- The senders that draw: src/libguac/protocol.c.
use guacenc.Base.{ℕ, List}
use guacenc.Base.Int.{ℤ}
use guacenc.Output.{◌or_else◌, write_string, instruction}
use guacenc.Protocol.{
  Port, Sender, literal, write_length_string, write_length_int, write_length_double, write_flag,
}

module _ (port : Port) where
  -- `guac_protocol_send_arc`
  unfoldable pub send_arc :
      ℤ → ℤ → ℤ → ℤ → port.formats.Double → port.formats.Double → ℤ → Sender port
  unfolding instruction write_flag write_length_double write_length_int write_string ◌or_else◌
  send_arc layer x y radius start_angle end_angle negative = instruction port.handlers (
      literal port "3.arc,"
      or_else write_length_int port layer
      or_else literal port ","
      or_else write_length_int port x
      or_else literal port ","
      or_else write_length_int port y
      or_else literal port ","
      or_else write_length_int port radius
      or_else literal port ","
      or_else write_length_double port start_angle
      or_else literal port ","
      or_else write_length_double port end_angle
      or_else literal port ","
      or_else write_flag port negative
      or_else literal port ";")

  -- `guac_protocol_send_cfill`
  unfoldable pub send_cfill : ℤ → ℤ → ℤ → ℤ → ℤ → ℤ → Sender port
  unfolding instruction write_length_int write_string ◌or_else◌
  send_cfill mode layer r g b a = instruction port.handlers (
      literal port "5.cfill,"
      or_else write_length_int port mode
      or_else literal port ","
      or_else write_length_int port layer
      or_else literal port ","
      or_else write_length_int port r
      or_else literal port ","
      or_else write_length_int port g
      or_else literal port ","
      or_else write_length_int port b
      or_else literal port ","
      or_else write_length_int port a
      or_else literal port ";")

  -- `guac_protocol_send_copy`
  unfoldable pub send_copy : ℤ → ℤ → ℤ → ℤ → ℤ → ℤ → ℤ → ℤ → ℤ → Sender port
  unfolding instruction write_length_int write_string ◌or_else◌
  send_copy srcl srcx srcy w h mode dstl dstx dsty = instruction port.handlers (
      literal port "4.copy,"
      or_else write_length_int port srcl
      or_else literal port ","
      or_else write_length_int port srcx
      or_else literal port ","
      or_else write_length_int port srcy
      or_else literal port ","
      or_else write_length_int port w
      or_else literal port ","
      or_else write_length_int port h
      or_else literal port ","
      or_else write_length_int port mode
      or_else literal port ","
      or_else write_length_int port dstl
      or_else literal port ","
      or_else write_length_int port dstx
      or_else literal port ","
      or_else write_length_int port dsty
      or_else literal port ";")

  -- `guac_protocol_send_cstroke`
  unfoldable pub send_cstroke : ℤ → ℤ → ℤ → ℤ → ℤ → ℤ → ℤ → ℤ → ℤ → Sender port
  unfolding instruction write_length_int write_string ◌or_else◌
  send_cstroke mode layer cap join thickness r g b a = instruction port.handlers (
      literal port "7.cstroke,"
      or_else write_length_int port mode
      or_else literal port ","
      or_else write_length_int port layer
      or_else literal port ","
      or_else write_length_int port cap
      or_else literal port ","
      or_else write_length_int port join
      or_else literal port ","
      or_else write_length_int port thickness
      or_else literal port ","
      or_else write_length_int port r
      or_else literal port ","
      or_else write_length_int port g
      or_else literal port ","
      or_else write_length_int port b
      or_else literal port ","
      or_else write_length_int port a
      or_else literal port ";")

  -- `guac_protocol_send_curve`
  unfoldable pub send_curve : ℤ → ℤ → ℤ → ℤ → ℤ → ℤ → ℤ → Sender port
  unfolding instruction write_length_int write_string ◌or_else◌
  send_curve layer cp1x cp1y cp2x cp2y x y = instruction port.handlers (
      literal port "5.curve,"
      or_else write_length_int port layer
      or_else literal port ","
      or_else write_length_int port cp1x
      or_else literal port ","
      or_else write_length_int port cp1y
      or_else literal port ","
      or_else write_length_int port cp2x
      or_else literal port ","
      or_else write_length_int port cp2y
      or_else literal port ","
      or_else write_length_int port x
      or_else literal port ","
      or_else write_length_int port y
      or_else literal port ";")

  -- `guac_protocol_send_line`
  unfoldable pub send_line : ℤ → ℤ → ℤ → Sender port
  unfolding instruction write_length_int write_string ◌or_else◌
  send_line layer x y = instruction port.handlers (
      literal port "4.line,"
      or_else write_length_int port layer
      or_else literal port ","
      or_else write_length_int port x
      or_else literal port ","
      or_else write_length_int port y
      or_else literal port ";")

  -- `guac_protocol_send_lfill`
  unfoldable pub send_lfill : ℤ → ℤ → ℤ → Sender port
  unfolding instruction write_length_int write_string ◌or_else◌
  send_lfill mode layer srcl = instruction port.handlers (
      literal port "5.lfill,"
      or_else write_length_int port mode
      or_else literal port ","
      or_else write_length_int port layer
      or_else literal port ","
      or_else write_length_int port srcl
      or_else literal port ";")

  -- `guac_protocol_send_lstroke`
  unfoldable pub send_lstroke : ℤ → ℤ → ℤ → ℤ → ℤ → ℤ → Sender port
  unfolding instruction write_length_int write_string ◌or_else◌
  send_lstroke mode layer cap join thickness srcl = instruction port.handlers (
      literal port "7.lstroke,"
      or_else write_length_int port mode
      or_else literal port ","
      or_else write_length_int port layer
      or_else literal port ","
      or_else write_length_int port cap
      or_else literal port ","
      or_else write_length_int port join
      or_else literal port ","
      or_else write_length_int port thickness
      or_else literal port ","
      or_else write_length_int port srcl
      or_else literal port ";")

  -- `guac_protocol_send_rect`
  unfoldable pub send_rect : ℤ → ℤ → ℤ → ℤ → ℤ → Sender port
  unfolding instruction write_length_int write_string ◌or_else◌
  send_rect layer x y width height = instruction port.handlers (
      literal port "4.rect,"
      or_else write_length_int port layer
      or_else literal port ","
      or_else write_length_int port x
      or_else literal port ","
      or_else write_length_int port y
      or_else literal port ","
      or_else write_length_int port width
      or_else literal port ","
      or_else write_length_int port height
      or_else literal port ";")

  -- `guac_protocol_send_start`
  unfoldable pub send_start : ℤ → ℤ → ℤ → Sender port
  unfolding instruction write_length_int write_string ◌or_else◌
  send_start layer x y = instruction port.handlers (
      literal port "5.start,"
      or_else write_length_int port layer
      or_else literal port ","
      or_else write_length_int port x
      or_else literal port ","
      or_else write_length_int port y
      or_else literal port ";")

  -- `guac_protocol_send_close`
  unfoldable pub send_close : ℤ → Sender port
  unfolding instruction write_length_int write_string ◌or_else◌
  send_close layer =
      instruction port.handlers
        (literal port "5.close," or_else write_length_int port layer or_else literal port ";")

  -- `guac_protocol_send_transfer`
  unfoldable pub send_transfer : ℤ → ℤ → ℤ → ℤ → ℤ → ℤ → ℤ → ℤ → ℤ → Sender port
  unfolding instruction write_length_int write_string ◌or_else◌
  send_transfer srcl srcx srcy w h fn dstl dstx dsty = instruction port.handlers (
      literal port "8.transfer,"
      or_else write_length_int port srcl
      or_else literal port ","
      or_else write_length_int port srcx
      or_else literal port ","
      or_else write_length_int port srcy
      or_else literal port ","
      or_else write_length_int port w
      or_else literal port ","
      or_else write_length_int port h
      or_else literal port ","
      or_else write_length_int port fn
      or_else literal port ","
      or_else write_length_int port dstl
      or_else literal port ","
      or_else write_length_int port dstx
      or_else literal port ","
      or_else write_length_int port dsty
      or_else literal port ";")

  -- `guac_protocol_send_img`
  unfoldable pub send_img : ℤ → ℤ → ℤ → List ℕ → ℤ → ℤ → Sender port
  unfolding instruction write_length_int write_length_string write_string ◌or_else◌
  send_img stream mode layer mimetype x y = instruction port.handlers (
      literal port "3.img,"
      or_else write_length_int port stream
      or_else literal port ","
      or_else write_length_int port mode
      or_else literal port ","
      or_else write_length_int port layer
      or_else literal port ","
      or_else write_length_string port mimetype
      or_else literal port ","
      or_else write_length_int port x
      or_else literal port ","
      or_else write_length_int port y
      or_else literal port ";")

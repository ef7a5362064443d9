-- ===== src/Protocol/Calls/Control.antt =====
-- The calls of the senders of the connection and of its events, what each asks for, and what it sends.
use guacenc.Base.{zero, suc, [], ◌∷◌, if◌then◌else◌}
use guacenc.Base.Int.{ℤ, pos, negsuc}
use guacenc.Utf8.Sizes.{bytes}
use guacenc.Output.{codes, is_zero, write_string, ◌or_else◌}
use guacenc.Output.Delivery.{instruction-Sends, write_string-Sends, or_else-Sends}
use guacenc.Parser.Elements.{wire}
use guacenc.Protocol.{Port, Sender, write_length_int}
use guacenc.Protocol.Elements.{
  IsPort, Text, Puts, int, text, opcode, ◌comma◌, last, int_element, flag_element,
}
use guacenc.Protocol.Calls.{of_int, of_text, of_flag, Request, request_wire}
use guacenc.Protocol.Control.{
  send_disconnect, send_error, send_key, send_mouse, send_name, send_nop, send_ready, send_select,
  send_sync,
}

pub data ControlCall (Double : Type 0) : Type 0 where
  call_disconnect : ControlCall Double
  call_error : Text → ℤ → ControlCall Double
  call_key : ℤ → ℤ → ℤ → ControlCall Double
  call_mouse : ℤ → ℤ → ℤ → ℤ → ControlCall Double
  call_name : Text → ControlCall Double
  call_nop : ControlCall Double
  call_ready : Text → ControlCall Double
  call_select : Text → ControlCall Double
  call_sync : ℤ → ControlCall Double

-- The opcode and the arguments.
abbrev pub request : {Double : Type 0} → ControlCall Double → Request Double
request call_disconnect = record { name = codes "disconnect"; arguments = [] }
request (call_error error status) = record {
  name = codes "error";
  arguments = of_text error ∷ of_int status ∷ [];
}
request (call_key keysym pressed timestamp) = record {
  name = codes "key";
  arguments = of_int keysym ∷ of_flag pressed ∷ of_int timestamp ∷ [];
}
request (call_mouse x y button_mask timestamp) = record {
  name = codes "mouse";
  arguments = of_int x ∷ of_int y ∷ of_int button_mask ∷ of_int timestamp ∷ [];
}
request (call_name name) = record { name = codes "name"; arguments = of_text name ∷ [] }
request call_nop = record { name = codes "nop"; arguments = [] }
request (call_ready id) = record { name = codes "ready"; arguments = of_text id ∷ [] }
request (call_select protocol) = record { name = codes "select"; arguments = of_text protocol ∷ [] }
request (call_sync timestamp) = record { name = codes "sync"; arguments = of_int timestamp ∷ [] }

module _ (port : Port) where
  abbrev pub send : ControlCall port.formats.Double → Sender port
  send call_disconnect = send_disconnect port
  send (call_error error status) = send_error port (bytes error.chars) status
  send (call_key keysym pressed timestamp) = send_key port keysym pressed timestamp
  send (call_mouse x y button_mask timestamp) = send_mouse port x y button_mask timestamp
  send (call_name name) = send_name port (bytes name.chars)
  send call_nop = send_nop port
  send (call_ready id) = send_ready port (bytes id.chars)
  send (call_select protocol) = send_select port (bytes protocol.chars)
  send (call_sync timestamp) = send_sync port timestamp

module _ {port : Port} (correct : IsPort port) where
  -- The state of a key, with the commas around it.
  pressed_puts :
      (pressed timestamp : ℤ)
      → Puts correct
          (write_string port.handlers (if is_zero pressed then codes ",1.0," else codes ",1.1,")
            or_else write_length_int port timestamp
            or_else write_string port.handlers (codes ";"))
          (b',' ∷ wire (flag_element pressed) (int_element port.formats timestamp ∷ []))
  unfolding is_zero
  pressed_puts (pos zero) timestamp = opcode (codes ",1.0,") (last (int correct timestamp))
  pressed_puts (pos (suc n)) timestamp = opcode (codes ",1.1,") (last (int correct timestamp))
  pressed_puts (negsuc n) timestamp = opcode (codes ",1.1,") (last (int correct timestamp))

  pub send-Puts :
      (c : ControlCall port.formats.Double)
      → Puts correct (send port c) (request_wire port.formats (request c))
  unfolding send_disconnect send_error send_key send_mouse send_name send_nop send_ready send_select
      send_sync
  send-Puts call_disconnect =
      instruction-Sends correct.channel
        (write_string-Sends correct.channel (codes "10.disconnect;"))
  send-Puts (call_error error status) = instruction-Sends correct.channel (
      opcode (codes "5.error,")
        (text correct error.chars error.text comma last (int correct status)))
  send-Puts (call_key keysym pressed timestamp) = instruction-Sends correct.channel (
      or_else-Sends correct.channel (write_string-Sends correct.channel (codes "3.key,"))
        (or_else-Sends correct.channel (int correct keysym).puts (pressed_puts pressed timestamp)))
  send-Puts (call_mouse x y button_mask timestamp) = instruction-Sends correct.channel (
      opcode (codes "5.mouse,") (
        int correct x
        comma int correct y
        comma int correct button_mask
        comma last (int correct timestamp)))
  send-Puts (call_name name) =
      instruction-Sends correct.channel
        (opcode (codes "4.name,") (last (text correct name.chars name.text)))
  send-Puts call_nop =
      instruction-Sends correct.channel (write_string-Sends correct.channel (codes "3.nop;"))
  send-Puts (call_ready id) =
      instruction-Sends correct.channel
        (opcode (codes "5.ready,") (last (text correct id.chars id.text)))
  send-Puts (call_select protocol) =
      instruction-Sends correct.channel
        (opcode (codes "6.select,") (last (text correct protocol.chars protocol.text)))
  send-Puts (call_sync timestamp) =
      instruction-Sends correct.channel (opcode (codes "4.sync,") (last (int correct timestamp)))

-- ===== src/Protocol/Delivery.antt =====
-- Every sender of src/libguac/protocol.c for one instruction, and what reaches the other side.
use guacenc.Base.Int.{ℤ}
use guacenc.Output.{GuacSocket}
use guacenc.Output.Delivery.{Delivered}
use guacenc.Protocol.{◌≡◌, Port, Sender}
use guacenc.Protocol.Elements.{IsPort, Puts}
use guacenc.Protocol.Calls.{Request, Block, request_wire}
use guacenc.Protocol.Calls.Drawing as Drawing
use guacenc.Protocol.Calls.Drawing.{DrawingCall}
use guacenc.Protocol.Calls.Layers as Layers
use guacenc.Protocol.Calls.Layers.{LayerCall}
use guacenc.Protocol.Calls.Streams as Streams
use guacenc.Protocol.Calls.Streams.{StreamCall}
use guacenc.Protocol.Calls.Control as Control
use guacenc.Protocol.Calls.Control.{ControlCall}
use guacenc.Protocol.Calls.Lists as Lists
use guacenc.Protocol.Calls.Lists.{ListCall}
use guacenc.Protocol.Calls.Blobs.{blob_request, send_blob-Puts}
use guacenc.Protocol.Streams.{send_blob}

-- A call of a sender.
pub data Call (Double : Type 0) : Type 0 where
  for_drawing : DrawingCall Double → Call Double
  for_layer : LayerCall Double → Call Double
  for_stream : StreamCall Double → Call Double
  for_control : ControlCall Double → Call Double
  for_list : ListCall → Call Double
  for_blob : ℤ → Block → Call Double

abbrev pub request : {Double : Type 0} → Call Double → Request Double
request (for_drawing c) = Drawing.request c
request (for_layer c) = Layers.request c
request (for_stream c) = Streams.request c
request (for_control c) = Control.request c
request (for_list c) = Lists.request c
request (for_blob stream block) = blob_request stream block

abbrev pub send : (port : Port) → Call port.formats.Double → Sender port
send port (for_drawing c) = Drawing.send port c
send port (for_layer c) = Layers.send port c
send port (for_stream c) = Streams.send port c
send port (for_control c) = Control.send port c
send port (for_list c) = Lists.send port c
send port (for_blob stream block) = send_blob port stream block.content

module _ {port : Port} (correct : IsPort port) where
  pub send-Puts :
      (c : Call port.formats.Double)
      → Puts correct (send port c) (request_wire port.formats (request c))
  send-Puts (for_drawing c) = Drawing.send-Puts correct c
  send-Puts (for_layer c) = Layers.send-Puts correct c
  send-Puts (for_stream c) = Streams.send-Puts correct c
  send-Puts (for_control c) = Control.send-Puts correct c
  send-Puts (for_list c) = Lists.send-Puts correct c
  send-Puts (for_blob stream block) = send_blob-Puts correct stream block

  -- Each sender returns. It returns 0 and has sent exactly the opcode and the arguments that it is asked
  -- for, each behind its length in characters, with a comma between them and a semicolon at the end; or
  -- it returns an error and has sent a first part of that. This holds where the write handler takes a
  -- byte at least of what it is given or fails, the numbers are formatted as C says, and no data waits in
  -- the buffer of base64; then none waits after a success. Every string of the call is a text of
  -- well-formed characters with no NUL, at most 8192 of them, and a blob has at most 6048 bytes.
  pub send-Delivered :
      (c : Call port.formats.Double) (s : GuacSocket port.handlers.World)
      → s.ready ≡ 0
      → Delivered correct.channel s (request_wire port.formats (request c)) 0 (send port c s)
  send-Delivered c = send-Puts c

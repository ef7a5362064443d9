-- ===== src/Protocol/Calls/Streams.antt =====
-- The calls of the senders of streams and objects, what each asks for, and what it sends.
use guacenc.Base.{[], ◌∷◌}
use guacenc.Base.Int.{ℤ}
use guacenc.Utf8.Sizes.{bytes}
use guacenc.Output.{codes}
use guacenc.Output.Delivery.{instruction-Sends}
use guacenc.Protocol.{Port, Sender}
use guacenc.Protocol.Elements.{IsPort, Text, Puts, int, text, opcode, ◌comma◌, last}
use guacenc.Protocol.Calls.{of_int, of_text, Request, request_wire}
use guacenc.Protocol.Streams.{
  send_ack, send_argv, send_audio, send_body, send_clipboard, send_end, send_file, send_filesystem,
  send_nest, send_pipe, send_undefine, send_video,
}

pub data StreamCall (Double : Type 0) : Type 0 where
  call_ack : ℤ → Text → ℤ → StreamCall Double
  call_argv : ℤ → Text → Text → StreamCall Double
  call_audio : ℤ → Text → StreamCall Double
  call_body : ℤ → ℤ → Text → Text → StreamCall Double
  call_clipboard : ℤ → Text → StreamCall Double
  call_end : ℤ → StreamCall Double
  call_file : ℤ → Text → Text → StreamCall Double
  call_filesystem : ℤ → Text → StreamCall Double
  call_nest : ℤ → Text → StreamCall Double
  call_pipe : ℤ → Text → Text → StreamCall Double
  call_undefine : ℤ → StreamCall Double
  call_video : ℤ → ℤ → Text → StreamCall Double

-- The opcode and the arguments.
abbrev pub request : {Double : Type 0} → StreamCall Double → Request Double
request (call_ack stream error status) = record {
  name = codes "ack";
  arguments = of_int stream ∷ of_text error ∷ of_int status ∷ [];
}
request (call_argv stream mimetype name) = record {
  name = codes "argv";
  arguments = of_int stream ∷ of_text mimetype ∷ of_text name ∷ [];
}
request (call_audio stream mimetype) = record {
  name = codes "audio";
  arguments = of_int stream ∷ of_text mimetype ∷ [];
}
request (call_body object stream mimetype name) = record {
  name = codes "body";
  arguments = of_int object ∷ of_int stream ∷ of_text mimetype ∷ of_text name ∷ [];
}
request (call_clipboard stream mimetype) = record {
  name = codes "clipboard";
  arguments = of_int stream ∷ of_text mimetype ∷ [];
}
request (call_end stream) = record { name = codes "end"; arguments = of_int stream ∷ [] }
request (call_file stream mimetype name) = record {
  name = codes "file";
  arguments = of_int stream ∷ of_text mimetype ∷ of_text name ∷ [];
}
request (call_filesystem object name) = record {
  name = codes "filesystem";
  arguments = of_int object ∷ of_text name ∷ [];
}
request (call_nest index content) = record {
  name = codes "nest";
  arguments = of_int index ∷ of_text content ∷ [];
}
request (call_pipe stream mimetype name) = record {
  name = codes "pipe";
  arguments = of_int stream ∷ of_text mimetype ∷ of_text name ∷ [];
}
request (call_undefine object) = record { name = codes "undefine"; arguments = of_int object ∷ [] }
request (call_video stream layer mimetype) = record {
  name = codes "video";
  arguments = of_int stream ∷ of_int layer ∷ of_text mimetype ∷ [];
}

module _ (port : Port) where
  abbrev pub send : StreamCall port.formats.Double → Sender port
  send (call_ack stream error status) = send_ack port stream (bytes error.chars) status
  send (call_argv stream mimetype name) =
      send_argv port stream (bytes mimetype.chars) (bytes name.chars)
  send (call_audio stream mimetype) = send_audio port stream (bytes mimetype.chars)
  send (call_body object stream mimetype name) =
      send_body port object stream (bytes mimetype.chars) (bytes name.chars)
  send (call_clipboard stream mimetype) = send_clipboard port stream (bytes mimetype.chars)
  send (call_end stream) = send_end port stream
  send (call_file stream mimetype name) =
      send_file port stream (bytes mimetype.chars) (bytes name.chars)
  send (call_filesystem object name) = send_filesystem port object (bytes name.chars)
  send (call_nest index content) = send_nest port index (bytes content.chars)
  send (call_pipe stream mimetype name) =
      send_pipe port stream (bytes mimetype.chars) (bytes name.chars)
  send (call_undefine object) = send_undefine port object
  send (call_video stream layer mimetype) = send_video port stream layer (bytes mimetype.chars)

module _ {port : Port} (correct : IsPort port) where
  pub send-Puts :
      (c : StreamCall port.formats.Double)
      → Puts correct (send port c) (request_wire port.formats (request c))
  unfolding send_ack send_argv send_audio send_body send_clipboard send_end send_file
      send_filesystem send_nest send_pipe send_undefine send_video
  send-Puts (call_ack stream error status) = instruction-Sends correct.channel (
      opcode (codes "3.ack,") (
        int correct stream
        comma text correct error.chars error.text
        comma last (int correct status)))
  send-Puts (call_argv stream mimetype name) = instruction-Sends correct.channel (
      opcode (codes "4.argv,") (
        int correct stream
        comma text correct mimetype.chars mimetype.text
        comma last (text correct name.chars name.text)))
  send-Puts (call_audio stream mimetype) = instruction-Sends correct.channel (
      opcode (codes "5.audio,")
        (int correct stream comma last (text correct mimetype.chars mimetype.text)))
  send-Puts (call_body object stream mimetype name) = instruction-Sends correct.channel (
      opcode (codes "4.body,") (
        int correct object
        comma int correct stream
        comma text correct mimetype.chars mimetype.text
        comma last (text correct name.chars name.text)))
  send-Puts (call_clipboard stream mimetype) = instruction-Sends correct.channel (
      opcode (codes "9.clipboard,")
        (int correct stream comma last (text correct mimetype.chars mimetype.text)))
  send-Puts (call_end stream) =
      instruction-Sends correct.channel (opcode (codes "3.end,") (last (int correct stream)))
  send-Puts (call_file stream mimetype name) = instruction-Sends correct.channel (
      opcode (codes "4.file,") (
        int correct stream
        comma text correct mimetype.chars mimetype.text
        comma last (text correct name.chars name.text)))
  send-Puts (call_filesystem object name) = instruction-Sends correct.channel (
      opcode (codes "10.filesystem,")
        (int correct object comma last (text correct name.chars name.text)))
  send-Puts (call_nest index content) = instruction-Sends correct.channel (
      opcode (codes "4.nest,")
        (int correct index comma last (text correct content.chars content.text)))
  send-Puts (call_pipe stream mimetype name) = instruction-Sends correct.channel (
      opcode (codes "4.pipe,") (
        int correct stream
        comma text correct mimetype.chars mimetype.text
        comma last (text correct name.chars name.text)))
  send-Puts (call_undefine object) =
      instruction-Sends correct.channel (opcode (codes "8.undefine,") (last (int correct object)))
  send-Puts (call_video stream layer mimetype) = instruction-Sends correct.channel (
      opcode (codes "5.video,") (
        int correct stream
        comma int correct layer
        comma last (text correct mimetype.chars mimetype.text)))

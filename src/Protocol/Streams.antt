-- ===== src/Protocol/Streams.antt =====
-- The senders of streams and objects: src/libguac/protocol.c.
use guacenc.Base.{
  ℕ, zero, suc, ◌+◌, ◌*◌, ◌/◌, true, false, List, [], ◌∷◌, ltb, if◌then◌else◌, length, take, drop,
}
use guacenc.Base.Int.{ℤ, pos}
use guacenc.Output.{
  ◌or_else◌, returned, exhausted, overrun, is_zero, write_string, instruction, write_base64,
  flush_base64,
}
use guacenc.Protocol.{
  Port, Sender, literal, blob_max_length, write_int, write_length_string, write_length_int,
}

module _ (port : Port) where
  -- `guac_protocol_send_ack`
  unfoldable pub send_ack : ℤ → List ℕ → ℤ → Sender port
  unfolding instruction write_length_int write_length_string write_string ◌or_else◌
  send_ack stream error status = instruction port.handlers (
      literal port "3.ack,"
      or_else write_length_int port stream
      or_else literal port ","
      or_else write_length_string port error
      or_else literal port ","
      or_else write_length_int port status
      or_else literal port ";")

  -- `guac_protocol_send_argv`
  unfoldable pub send_argv : ℤ → List ℕ → List ℕ → Sender port
  unfolding instruction write_length_int write_length_string write_string ◌or_else◌
  send_argv stream mimetype name = instruction port.handlers (
      literal port "4.argv,"
      or_else write_length_int port stream
      or_else literal port ","
      or_else write_length_string port mimetype
      or_else literal port ","
      or_else write_length_string port name
      or_else literal port ";")

  -- `guac_protocol_send_audio`
  unfoldable pub send_audio : ℤ → List ℕ → Sender port
  unfolding instruction write_length_int write_length_string write_string ◌or_else◌
  send_audio stream mimetype = instruction port.handlers (
      literal port "5.audio,"
      or_else write_length_int port stream
      or_else literal port ","
      or_else write_length_string port mimetype
      or_else literal port ";")

  -- `guac_protocol_send_body`
  unfoldable pub send_body : ℤ → ℤ → List ℕ → List ℕ → Sender port
  unfolding instruction write_length_int write_length_string write_string ◌or_else◌
  send_body object stream mimetype name = instruction port.handlers (
      literal port "4.body,"
      or_else write_length_int port object
      or_else literal port ","
      or_else write_length_int port stream
      or_else literal port ","
      or_else write_length_string port mimetype
      or_else literal port ","
      or_else write_length_string port name
      or_else literal port ";")

  -- `guac_protocol_send_clipboard`
  unfoldable pub send_clipboard : ℤ → List ℕ → Sender port
  unfolding instruction write_length_int write_length_string write_string ◌or_else◌
  send_clipboard stream mimetype = instruction port.handlers (
      literal port "9.clipboard,"
      or_else write_length_int port stream
      or_else literal port ","
      or_else write_length_string port mimetype
      or_else literal port ";")

  -- `guac_protocol_send_end`
  unfoldable pub send_end : ℤ → Sender port
  unfolding instruction write_length_int write_string ◌or_else◌
  send_end stream =
      instruction port.handlers
        (literal port "3.end," or_else write_length_int port stream or_else literal port ";")

  -- `guac_protocol_send_file`
  unfoldable pub send_file : ℤ → List ℕ → List ℕ → Sender port
  unfolding instruction write_length_int write_length_string write_string ◌or_else◌
  send_file stream mimetype name = instruction port.handlers (
      literal port "4.file,"
      or_else write_length_int port stream
      or_else literal port ","
      or_else write_length_string port mimetype
      or_else literal port ","
      or_else write_length_string port name
      or_else literal port ";")

  -- `guac_protocol_send_filesystem`
  unfoldable pub send_filesystem : ℤ → List ℕ → Sender port
  unfolding instruction write_length_int write_length_string write_string ◌or_else◌
  send_filesystem object name = instruction port.handlers (
      literal port "10.filesystem,"
      or_else write_length_int port object
      or_else literal port ","
      or_else write_length_string port name
      or_else literal port ";")

  -- `guac_protocol_send_nest`
  unfoldable pub send_nest : ℤ → List ℕ → Sender port
  unfolding instruction write_length_int write_length_string write_string ◌or_else◌
  send_nest index content = instruction port.handlers (
      literal port "4.nest,"
      or_else write_length_int port index
      or_else literal port ","
      or_else write_length_string port content
      or_else literal port ";")

  -- `guac_protocol_send_pipe`
  unfoldable pub send_pipe : ℤ → List ℕ → List ℕ → Sender port
  unfolding instruction write_length_int write_length_string write_string ◌or_else◌
  send_pipe stream mimetype name = instruction port.handlers (
      literal port "4.pipe,"
      or_else write_length_int port stream
      or_else literal port ","
      or_else write_length_string port mimetype
      or_else literal port ","
      or_else write_length_string port name
      or_else literal port ";")

  -- `guac_protocol_send_undefine`
  unfoldable pub send_undefine : ℤ → Sender port
  unfolding instruction write_length_int write_string ◌or_else◌
  send_undefine object =
      instruction port.handlers
        (literal port "8.undefine," or_else write_length_int port object or_else literal port ";")

  -- `guac_protocol_send_video`
  unfoldable pub send_video : ℤ → ℤ → List ℕ → Sender port
  unfolding instruction write_length_int write_length_string write_string ◌or_else◌
  send_video stream layer mimetype = instruction port.handlers (
      literal port "5.video,"
      or_else write_length_int port stream
      or_else literal port ","
      or_else write_length_int port layer
      or_else literal port ","
      or_else write_length_string port mimetype
      or_else literal port ";")

  -- `guac_protocol_send_blob`; `||` is grouped so that the data is one operand.
  unfoldable pub send_blob : ℤ → List ℕ → Sender port
  unfolding ◌or_else◌ flush_base64 instruction write_base64 write_int write_length_int write_string
  send_blob stream content =
      let base64_length = (length content + 2) / 3 * 4 in
      instruction port.handlers (
        literal port "4.blob,"
        or_else write_length_int port stream
        or_else literal port ","
        or_else write_int port (pos base64_length)
        or_else literal port "."
        or_else (write_base64 port.handlers content or_else flush_base64 port.handlers)
        or_else literal port ";")

  -- The loop of `guac_protocol_send_blobs`.
  unfoldable pub blobs_loop : ℕ → ℤ → List ℕ → Sender port
  unfolding send_blob is_zero
  blobs_loop rounds stream [] s = returned (pos 0) s
  blobs_loop zero stream (byte ∷ content) s = exhausted
  blobs_loop (suc rounds) stream (byte ∷ content) s =
      let count = length (byte ∷ content) in
      let blob_size = if ltb blob_max_length count then blob_max_length else count in
      elim (send_blob stream (take blob_size (byte ∷ content)) s) [
        | returned ret_val s' ↦ elim (is_zero ret_val) [
          | true ↦ blobs_loop rounds stream (drop blob_size (byte ∷ content)) s'
          | false ↦ returned ret_val s'
        ]
        | exhausted ↦ exhausted
        | overrun ↦ overrun
      ]

  -- `guac_protocol_send_blobs`; as many rounds as bytes are enough.
  unfoldable pub send_blobs : ℤ → List ℕ → Sender port
  unfolding blobs_loop
  send_blobs stream content = blobs_loop (length content) stream content

-- ===== src/Protocol/Calls/Names.antt =====
-- The opcodes are ASCII names, of which the code counts the characters in at most two digits.
use guacenc.Base.{ℕ, ◌≡◌, refl, Bool, true, ◌&&◌, List, ltb, length}
use guacenc.Protocol.Elements.{is_ascii}
use guacenc.Protocol.Delivery.{
  Call, for_drawing, for_layer, for_stream, for_control, for_list, for_blob, request,
}
use guacenc.Protocol.Calls.Lists as Lists
use guacenc.Protocol.Calls.Lists.{ListCall, call_args, call_connect, call_log}
use guacenc.Protocol.Calls.Drawing as Drawing
use guacenc.Protocol.Calls.Drawing.{
  DrawingCall, call_arc, call_cfill, call_copy, call_cstroke, call_curve, call_line, call_lfill,
  call_lstroke, call_rect, call_start, call_close, call_transfer, call_img,
}
use guacenc.Protocol.Calls.Layers as Layers
use guacenc.Protocol.Calls.Layers.{
  LayerCall, call_clip, call_cursor, call_dispose, call_distort, call_identity, call_move, call_pop,
  call_push, call_reset, call_set, call_shade, call_size, call_transform,
}
use guacenc.Protocol.Calls.Streams as Streams
use guacenc.Protocol.Calls.Streams.{
  StreamCall, call_ack, call_argv, call_audio, call_body, call_clipboard, call_end, call_file,
  call_filesystem, call_nest, call_pipe, call_undefine, call_video,
}
use guacenc.Protocol.Calls.Control as Control
use guacenc.Protocol.Calls.Control.{
  ControlCall, call_disconnect, call_error, call_key, call_mouse, call_name, call_nop, call_ready,
  call_select, call_sync,
}

abbrev pub is_name : List ℕ → Bool
is_name name = is_ascii name && ltb (length name) 100

drawing_name : {Double : Type 0} (c : DrawingCall Double) → is_name (Drawing.request c).name ≡ true
drawing_name (call_arc _ _ _ _ _ _ _) = refl
drawing_name (call_cfill _ _ _ _ _ _) = refl
drawing_name (call_copy _ _ _ _ _ _ _ _ _) = refl
drawing_name (call_cstroke _ _ _ _ _ _ _ _ _) = refl
drawing_name (call_curve _ _ _ _ _ _ _) = refl
drawing_name (call_line _ _ _) = refl
drawing_name (call_lfill _ _ _) = refl
drawing_name (call_lstroke _ _ _ _ _ _) = refl
drawing_name (call_rect _ _ _ _ _) = refl
drawing_name (call_start _ _ _) = refl
drawing_name (call_close _) = refl
drawing_name (call_transfer _ _ _ _ _ _ _ _ _) = refl
drawing_name (call_img _ _ _ _ _ _) = refl

layers_name : {Double : Type 0} (c : LayerCall Double) → is_name (Layers.request c).name ≡ true
layers_name (call_clip _) = refl
layers_name (call_cursor _ _ _ _ _ _ _) = refl
layers_name (call_dispose _) = refl
layers_name (call_distort _ _ _ _ _ _ _) = refl
layers_name (call_identity _) = refl
layers_name (call_move _ _ _ _ _) = refl
layers_name (call_pop _) = refl
layers_name (call_push _) = refl
layers_name (call_reset _) = refl
layers_name (call_set _ _ _) = refl
layers_name (call_shade _ _) = refl
layers_name (call_size _ _ _) = refl
layers_name (call_transform _ _ _ _ _ _ _) = refl

streams_name : {Double : Type 0} (c : StreamCall Double) → is_name (Streams.request c).name ≡ true
streams_name (call_ack _ _ _) = refl
streams_name (call_argv _ _ _) = refl
streams_name (call_audio _ _) = refl
streams_name (call_body _ _ _ _) = refl
streams_name (call_clipboard _ _) = refl
streams_name (call_end _) = refl
streams_name (call_file _ _ _) = refl
streams_name (call_filesystem _ _) = refl
streams_name (call_nest _ _) = refl
streams_name (call_pipe _ _ _) = refl
streams_name (call_undefine _) = refl
streams_name (call_video _ _ _) = refl

control_name : {Double : Type 0} (c : ControlCall Double) → is_name (Control.request c).name ≡ true
control_name call_disconnect = refl
control_name (call_error _ _) = refl
control_name (call_key _ _ _) = refl
control_name (call_mouse _ _ _ _) = refl
control_name (call_name _) = refl
control_name call_nop = refl
control_name (call_ready _) = refl
control_name (call_select _) = refl
control_name (call_sync _) = refl

list_name :
    (Double : Type 0) (c : ListCall) → is_name (Lists.request {Double = Double} c).name ≡ true
list_name Double (call_args _) = refl
list_name Double (call_connect _) = refl
list_name Double (call_log _) = refl

pub request-name : {Double : Type 0} (c : Call Double) → is_name (request c).name ≡ true
request-name (for_drawing c) = drawing_name c
request-name (for_layer c) = layers_name c
request-name (for_stream c) = streams_name c
request-name (for_control c) = control_name c
request-name (for_list c) = list_name _ c
request-name (for_blob _ _) = refl
